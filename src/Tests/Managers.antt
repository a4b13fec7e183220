-- ===== src/Tests/Managers.antt =====
-- The work manager and the IOManager.
use cbbncd.Base.{◌≤◌, ◌≡◌, refl, [], ◌∷◌, ◌++◌, Bool, true, false, Option, none, some}
use cbbncd.Core.SignalEvents.{set_slot, flush_slots}
use cbbncd.Core.DataBlockPool.{DataBlockPool}
use cbbncd.Core.Event.{normal, high, Event, tick, databuf, event_data}
use cbbncd.Core.WorkManager.{
  WorkManager, new_manager, dispatch, keeps_up, dispatch_signal, flush_event_receiver,
}
use cbbncd.Core.WorkManager.Worker.{Taken, starves, got_event, next, after_call, finish}
use cbbncd.Core.WorkManager.Histories.{
  idle, busy, sends_answered, Reaches, starts, asks, takes, least,
}
use cbbncd.Core.WorkManager.Taking.{queue_of, Serves}
use cbbncd.Core.WorkManager.Counts.{waiting}
use cbbncd.Core.WorkManager.Delivery.{select, Reaches-delivers, Reaches-Serves}
use cbbncd.Core.WorkManager.Overload.{Answers, answer-Bounds, Relieved, finish-Relieves}

abbrev pool : DataBlockPool
pool = record { blocks = []; availableblocks = []; totalblocks = 0 }

abbrev ticking : Event
ticking = event_data (some 1) tick 100 0 0

abbrev reading : Event
reading = event_data (some 2) databuf 7 4096 16

abbrev manager : WorkManager
manager = record (new_manager pool) { running = true }

-- Data, and then a tick, which is taken first.
abbrev two_waiting : WorkManager
two_waiting =
    (keeps_up high (dispatch high ticking (keeps_up normal (dispatch normal reading manager)).1)).1

abbrev two_sent : Reaches idle two_waiting ((normal, reading) ∷ (high, ticking) ∷ []) []
two_sent =
    asks idle _ _ _ _ (sends_answered high ticking)
      (asks idle _ _ _ _ (sends_answered normal reading) (starts pool) refl) refl

abbrev one_left : WorkManager
one_left = (keeps_up normal (dispatch normal reading manager)).1

abbrev one_taken :
    Reaches
      (busy ticking)
      one_left
      ((normal, reading) ∷ (high, ticking) ∷ [])
      ((high, ticking) ∷ [])
one_taken = takes two_waiting one_left _ _ high ticking two_sent refl

Reaches-delivers_example :
    select normal ((high, ticking) ∷ []) ++ queue_of normal one_left
    ≡ select normal ((normal, reading) ∷ (high, ticking) ∷ [])
Reaches-delivers_example = Reaches-delivers normal one_taken

Reaches-Serves_example : Serves two_waiting (next two_waiting)
Reaches-Serves_example = Reaches-Serves two_sent

answer-Bounds_example :
    Answers normal (keeps_up normal (dispatch normal reading two_waiting))
    × ((keeps_up normal (dispatch normal reading two_waiting)).0 ≡ false
        → least idle ≤ waiting (keeps_up normal (dispatch normal reading two_waiting)).1)
answer-Bounds_example = answer-Bounds normal reading two_sent

finish-Relieves_example : Relieved (after_call tick ticking one_left) (finish ticking one_left)
finish-Relieves_example = finish-Relieves ticking one_taken

-- A signal that is flushed leaves the semaphore raised: once the worker has done the tick that
-- follows, it waits in the queue of low priority.
abbrev run_of : Option WorkManager → WorkManager → WorkManager
run_of none m = m
run_of (some m') m = m'

abbrev flushed_manager : WorkManager
flushed_manager =
    run_of (flush_event_receiver (some 1) (run_of (dispatch_signal (some 1) 2 0 manager) manager))
      manager

abbrev after_tick : Taken → WorkManager
after_tick (got_event p e m) = (finish e m).1
after_tick taken = manager

abbrev starving : Taken → Bool
starving (starves m) = true
starving taken = false

flush_starves : starving (next (after_tick (next (dispatch high ticking flushed_manager)))) ≡ true
unfolding set_slot flush_slots
flush_starves = refl
