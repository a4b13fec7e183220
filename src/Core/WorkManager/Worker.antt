-- ===== src/Core/WorkManager/Worker.antt =====
-- The worker thread (WorkManager::run) and an async worker (AsyncWorker::run), a round at a time.
use cbbncd.Base.{
  ℕ, zero, suc, ◌+◌, List, [], Bool, false, not, ◌&&◌, ◌||◌, Option, none, some, leb, ◌==◌,
  if◌then◌else◌,
}
use cbbncd.Base.Text.{Bytes}
use cbbncd.Core.BlockingQueue.{BlockingQueue, Popped, blocks, no_front, popped, pop}
use cbbncd.Core.SignalEvents.{SignalData, SignalEvents, has_event, get_clear_first}
use cbbncd.Core.Event.{
  Prio, low, normal, high, Event, EventType, data_event, databuf, tick, connecting, connected,
  disconnected, ssl_success, new, fail, send_complete, delete, async_complete, async_complete_p,
  application_message, flush, AsyncTask, execute,
}
use cbbncd.Core.DataBlockPool.{return_block}
use cbbncd.Core.WorkManager.{WorkManager, dispatch_async_task_complete}

-- What a receiver is called with.
pub data Call : Type 0 where
  fd_data : ℕ → Call
  fd_data_buf : ℕ → ℕ → ℕ → Call
  ticked : ℕ → Call
  fd_connecting : ℕ → Bytes → Call
  fd_connected : ℕ → Call
  fd_disconnected : ℕ → ℕ → Bytes → Call
  fd_ssl_success : ℕ → Bytes → Call
  fd_new : ℕ → ℕ → Call
  fd_fail : ℕ → Bytes → Call
  fd_send_complete : ℕ → Call
  async_task_complete : ℕ → ℕ → Call
  async_task_complete_pointer : ℕ → ℕ → Call
  received_application_message : ℕ → ℕ → Call
  signal_of : ℕ → ℕ → Call
  worker_ready : Call

-- The first part of a round ends in one of these ways: the worker waits for `event`; it waits in
-- `pop` of a queue; it takes the front of an empty list or finds no signal, which is undefined or
-- fails an assertion; or it has a signal or an event, the latter from one of the queues.
pub data Taken : Type 0 where
  waits : Taken
  starves : WorkManager → Taken
  fails : Taken
  got_signal : SignalData → WorkManager → Taken
  got_event : Prio → Event → WorkManager → Taken

abbrev pub keep_rest : Prio → BlockingQueue Event → WorkManager → WorkManager
keep_rest low q m = record m { lowprioqueue = q }
keep_rest normal q m = record m { dataqueue = q }
keep_rest high q m = record m { highprioqueue = q }

abbrev pub take_from : Prio → WorkManager → Popped Event → Taken
take_from p m blocks = starves m
take_from p m no_front = fails
take_from p m (popped e q) = got_event p e (keep_rest p q m)

abbrev pub take_event : WorkManager → Taken
take_event m =
    if not (m.highprioqueue.queuesize == 0)
    then take_from high m (pop m.highprioqueue)
    else if not (m.dataqueue.queuesize == 0)
    then take_from normal m (pop m.dataqueue)
    else take_from low m (pop m.lowprioqueue)

abbrev pub take_signal : WorkManager → Option (SignalData × SignalEvents) → Taken
take_signal m none = fails
take_signal m (some (signal, s)) = got_signal signal (record m { signalevents = s })

abbrev pub woken : WorkManager → Taken
woken m =
    if has_event m.signalevents
    then take_signal m (get_clear_first m.signalevents)
    else take_event m

abbrev pub taken_at : ℕ → WorkManager → Taken
taken_at zero m = waits
taken_at (suc n) m = woken (record m { event = n })

-- A round of `run`, up to the call of the receiver.
abbrev pub next : WorkManager → Taken
next m = taken_at m.event m

-- The call of the receiver for an event, if there is one.
abbrev pub call_of : EventType → Event → Option Call
call_of data_event e = some (fd_data e.numdata)
call_of databuf e = some (fd_data_buf e.numdata e.data_pointer e.datalen)
call_of tick e = some (ticked e.numdata)
call_of connecting e = some (fd_connecting e.numdata e.strdata)
call_of connected e = some (fd_connected e.numdata)
call_of disconnected e = some (fd_disconnected e.numdata e.numdata2 e.strdata)
call_of ssl_success e = some (fd_ssl_success e.numdata e.strdata)
call_of new e = some (fd_new e.numdata e.numdata2)
call_of fail e = some (fd_fail e.numdata e.strdata)
call_of send_complete e = some (fd_send_complete e.numdata)
call_of delete e = none
call_of async_complete e = some (async_task_complete e.numdata e.numdata2)
call_of async_complete_p e = some (async_task_complete_pointer e.numdata e.data_pointer)
call_of application_message e = some (received_application_message e.numdata e.data_pointer)
call_of flush e = none

-- What follows the call in the switch.
abbrev pub after_call : EventType → Event → WorkManager → WorkManager
after_call data_event e m = record m { readdata = m.readdata + 1 }
after_call databuf e m = record m { blockpool = return_block e.data_pointer m.blockpool }
after_call flush e m = record m { flushed = m.flushed + 1 }
after_call type e m = m

abbrev pub is_ready : WorkManager → Bool
is_ready m =
    (m.overloaded || m.lowpriooverloaded)
    && leb (m.dataqueue.queuesize + m.highprioqueue.queuesize + m.lowprioqueue.queuesize) 8

-- The end of a round, with the receivers that are told that the worker is ready.
abbrev pub relieve : WorkManager → List ℕ × WorkManager
relieve m =
    if is_ready m
    then (m.readynotify, record m { overloaded = false; lowpriooverloaded = false })
    else ([], m)

-- The rest of a round with an event, after the call.
abbrev pub finish : Event → WorkManager → List ℕ × WorkManager
finish e m = relieve (after_call e.type e m)

-- After a signal: the call of the receiver, or for nullptr the end of the thread.
abbrev pub signalled_call : Option ℕ → SignalData → WorkManager → Option (ℕ × Call) × WorkManager
signalled_call none s m = (none, record m { running = false; flushed = m.flushed + 1 })
signalled_call (some er) s m = (some (er, signal_of s.signal s.value), m)

-- A round of an async worker: it waits; it stops; or it calls a function and reports.
pub data AsyncRound : Type 0 where
  async_waits : AsyncRound
  async_fails : AsyncRound
  async_stops : WorkManager → AsyncRound
  async_calls : ℕ × Option ℕ × ℕ → WorkManager → AsyncRound

abbrev pub executed : AsyncTask → WorkManager → Option (ℕ × Option ℕ × ℕ) → AsyncRound
executed t m none = async_stops m
executed t m (some call) = async_calls call (dispatch_async_task_complete t m)

abbrev pub async_taken : WorkManager → Popped AsyncTask → AsyncRound
async_taken m blocks = async_waits
async_taken m no_front = async_fails
async_taken m (popped t q) = executed t (record m { asyncqueue = q }) (execute t)

abbrev pub async_round : WorkManager → AsyncRound
async_round m = async_taken m (pop m.asyncqueue)
