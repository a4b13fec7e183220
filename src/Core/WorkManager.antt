-- ===== src/Core/WorkManager.antt =====
-- core/workmanager.cpp and asyncworker.cpp: the queues of the work for the worker thread. The call
-- of bindWorkManager, which only keeps a pointer in the receiver, is left out. What
-- a step of another thread or of a receiver asks for is taken as one step; the locks are left out,
-- and of a thread that waits for a semaphore the part before the wait is a step.
pub mod Worker
pub mod Counts
pub mod Taking
pub mod Histories
pub mod Delivery
pub mod Overload
use cbbncd.Base.{
  ℕ, zero, suc, ◌+◌, ◌-◌, List, [], ◌∷◌, ◌++◌, Bool, true, false, not, ◌&&◌, ◌||◌, Option, none,
  some, ltb, leb, ◌==◌, if◌then◌else◌,
}
use cbbncd.Base.Text.{Bytes}
use cbbncd.Core.BlockingQueue.{BlockingQueue, new_queue, push}
use cbbncd.Core.SignalEvents.{SignalEvents, new_signals, set_signal, same_receiver, flush_signals}
use cbbncd.Core.Event.{
  Prio, low, normal, high, Event, data_event, databuf, tick, connecting, connected, disconnected,
  ssl_success, new, fail, send_complete, delete, async_complete, async_complete_p,
  application_message, flush, event_data, event_numbers, event_text, event_owner, AsyncTask,
  number_task, pointer_task, data_is_pointer,
}
use cbbncd.Core.DataBlockPool.{DataBlockPool}

pub record WorkManager : Type 0 where
  pub dataqueue : BlockingQueue Event
  pub highprioqueue : BlockingQueue Event
  pub lowprioqueue : BlockingQueue Event
  pub asyncqueue : BlockingQueue AsyncTask
  pub readynotify : List ℕ
  pub signalevents : SignalEvents
  pub event : ℕ
  pub readdata : ℕ
  pub flushed : ℕ
  pub blockpool : DataBlockPool
  pub running : Bool
  pub overloaded : Bool
  pub lowpriooverloaded : Bool

-- `new WorkManager()`.
abbrev pub new_manager : DataBlockPool → WorkManager
new_manager pool = record {
  dataqueue = new_queue;
  highprioqueue = new_queue;
  lowprioqueue = new_queue;
  asyncqueue = new_queue;
  readynotify = [];
  signalevents = new_signals;
  event = 0;
  readdata = 0;
  flushed = 0;
  blockpool = pool;
  running = false;
  overloaded = false;
  lowpriooverloaded = false;
}

-- `eventqueues[prio]->push(e)` and `event.post()`.
abbrev pub dispatch : Prio → Event → WorkManager → WorkManager
dispatch low e m = record m { lowprioqueue = push e m.lowprioqueue; event = m.event + 1 }
dispatch normal e m = record m { dataqueue = push e m.dataqueue; event = m.event + 1 }
dispatch high e m = record m { highprioqueue = push e m.highprioqueue; event = m.event + 1 }

abbrev pub is_overload : WorkManager → Bool
is_overload m = leb 32 (m.highprioqueue.queuesize + m.dataqueue.queuesize)

abbrev pub is_low_overload : WorkManager → Bool
is_low_overload m =
    leb 32 (m.highprioqueue.queuesize + m.dataqueue.queuesize + m.lowprioqueue.queuesize)

abbrev pub overload : WorkManager → Bool × WorkManager
overload m =
    let m' =
      if is_overload m then record m { overloaded = true; lowpriooverloaded = true } else m in
    (m'.overloaded, m')

abbrev pub low_prio_overload : WorkManager → Bool × WorkManager
low_prio_overload m =
    let m' = if is_low_overload m then record m { lowpriooverloaded = true } else m in
    (m'.lowpriooverloaded, m')

abbrev pub negated : Bool × WorkManager → Bool × WorkManager
negated (full, m) = (not full, m)

-- The answer to the IOManager: false, if it is to stop reading.
abbrev pub keeps_up : Prio → WorkManager → Bool × WorkManager
keeps_up low m = negated (low_prio_overload m)
keeps_up normal m = negated (overload m)
keeps_up high m = negated (overload m)

-- The first overload of `dispatchFDData`, up to its wait for the worker.
abbrev pub dispatch_fd_data : Option ℕ → ℕ → WorkManager → WorkManager
dispatch_fd_data er sockid m = dispatch high (event_data er data_event sockid 0 0) m

-- The wait; none while it lasts.
abbrev pub wait_readdata_for : ℕ → WorkManager → Option WorkManager
wait_readdata_for zero m = none
wait_readdata_for (suc n) m = some (record m { readdata = n })

abbrev pub wait_readdata : WorkManager → Option WorkManager
wait_readdata m = wait_readdata_for m.readdata m

-- The second one.
abbrev pub dispatch_fd_data_buf : Option ℕ → ℕ → ℕ → ℕ → Prio → WorkManager → Bool × WorkManager
dispatch_fd_data_buf er sockid buf len prio m =
    keeps_up prio (dispatch prio (event_data er databuf sockid buf len) m)

abbrev pub dispatch_tick : Option ℕ → ℕ → WorkManager → WorkManager
dispatch_tick er interval m = dispatch high (event_data er tick interval 0 0) m

abbrev pub dispatch_event_new : Option ℕ → ℕ → ℕ → Prio → WorkManager → Bool × WorkManager
dispatch_event_new er sockid newsockid prio m =
    keeps_up prio (dispatch prio (event_numbers er new sockid newsockid) m)

abbrev pub dispatch_event_connecting : Option ℕ → ℕ → Bytes → Prio → WorkManager → WorkManager
dispatch_event_connecting er sockid addr prio m =
    dispatch prio (event_text er connecting sockid addr 0) m

abbrev pub dispatch_event_connected : Option ℕ → ℕ → Prio → WorkManager → WorkManager
dispatch_event_connected er sockid prio m = dispatch prio (event_data er connected sockid 0 0) m

abbrev pub dispatch_event_disconnected : Option ℕ → ℕ → ℕ → Bytes → Prio → WorkManager → WorkManager
dispatch_event_disconnected er sockid reason details prio m =
    dispatch prio (event_text er disconnected sockid details reason) m

abbrev pub dispatch_event_ssl_success : Option ℕ → ℕ → Bytes → Prio → WorkManager → WorkManager
dispatch_event_ssl_success er sockid cipher prio m =
    dispatch prio (event_text er ssl_success sockid cipher 0) m

abbrev pub dispatch_event_fail : Option ℕ → ℕ → Bytes → Prio → WorkManager → WorkManager
dispatch_event_fail er sockid error prio m = dispatch prio (event_text er fail sockid error 0) m

abbrev pub dispatch_event_send_complete : Option ℕ → ℕ → Prio → WorkManager → WorkManager
dispatch_event_send_complete er sockid prio m =
    dispatch prio (event_data er send_complete sockid 0 0) m

abbrev pub posted_if : WorkManager → Option (Bool × SignalEvents) → Option WorkManager
posted_if m none = none
posted_if m (some (true, s)) = some (record m { signalevents = s; event = m.event + 1 })
posted_if m (some (false, s)) = some (record m { signalevents = s })

-- None: all slots are taken, and the assertion fails.
abbrev pub dispatch_signal : Option ℕ → ℕ → ℕ → WorkManager → Option WorkManager
dispatch_signal er signal value m = posted_if m (set_signal er signal value m.signalevents)

abbrev pub dispatch_async_task_complete : AsyncTask → WorkManager → WorkManager
dispatch_async_task_complete t m =
    if data_is_pointer t
    then dispatch normal (event_data t.task_receiver async_complete_p t.task_type t.datap 0) m
    else dispatch normal (event_numbers t.task_receiver async_complete t.task_type t.task_data) m

abbrev pub dispatch_application_message : Option ℕ → ℕ → ℕ → Prio → WorkManager → WorkManager
dispatch_application_message er messageid messagedata prio m =
    dispatch prio (event_data er application_message messageid messagedata 0) m

abbrev pub defer_delete : ℕ → WorkManager → WorkManager
defer_delete er m = dispatch low (event_owner (some er) delete) m

abbrev pub async_task : ℕ → ℕ → ℕ → ℕ → WorkManager → WorkManager
async_task er type function d m = record m {
  asyncqueue = push (number_task (some er) type (some function) d) m.asyncqueue;
}

abbrev pub async_task_pointer : ℕ → ℕ → ℕ → ℕ → WorkManager → WorkManager
async_task_pointer er type function d m = record m {
  asyncqueue = push (pointer_task (some er) type (some function) d) m.asyncqueue;
}

abbrev pub add_ready_notify : ℕ → WorkManager → WorkManager
add_ready_notify er m = record m { readynotify = m.readynotify ++ er ∷ [] }

-- An event in the list is for the receiver.
abbrev pub is_for : Option ℕ → List Event → Bool
is_for er [] = false
is_for er (e ∷ events) = same_receiver e.receiver er || is_for er events

-- `flushEventReceiver` on the worker's own thread. None: an event is erased, and the loop goes on
-- with the iterator of the erased event, which is undefined.
abbrev pub flush_event_receiver : Option ℕ → WorkManager → Option WorkManager
flush_event_receiver er m =
    if m.running
    then if is_for er m.lowprioqueue.queue
        || (is_for er m.dataqueue.queue || is_for er m.highprioqueue.queue)
      then none
      else some (record m { signalevents = flush_signals er m.signalevents })
    else some m

-- On another thread, up to its wait.
abbrev pub ask_flush : WorkManager → WorkManager
ask_flush m = if m.running then dispatch low (event_data none flush 0 0 0) m else m

abbrev pub stop_task : AsyncTask
stop_task = number_task none 0 none 0

abbrev pub stop_tasks : WorkManager → WorkManager
stop_tasks m = record m { asyncqueue = push stop_task (push stop_task m.asyncqueue) }

abbrev pub signalled : WorkManager → Option (Bool × SignalEvents) → Option WorkManager
signalled m none = none
signalled m (some (fresh, s)) =
    some (stop_tasks (record m { signalevents = s; event = m.event + 1 }))

abbrev pub pre_stop : WorkManager → Option WorkManager
pre_stop m = if m.running then signalled m (set_signal none 0 0 m.signalevents) else some m
