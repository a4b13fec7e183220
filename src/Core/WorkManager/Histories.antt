-- ===== src/Core/WorkManager/Histories.antt =====
-- The histories of the work manager: the steps of the worker and of those who ask it, in any
-- order, as long as no receiver is flushed and the manager is not stopped.
use cbbncd.Base.{
  ℕ, zero, suc, ◌+◌, ◌≤◌, ◌≡◌, refl, subst, List, [], ◌∷◌, ◌++◌, Bool, true, false, ◌||◌, ◌&&◌, leb,
  by_test, Option, some, arith,
}
use cbbncd.Core.SignalEvents.{SignalData}
use cbbncd.Core.Event.{
  Prio, Event, EventType, data_event, databuf, tick, connecting, connected, disconnected,
  ssl_success, new, fail, send_complete, delete, async_complete, async_complete_p,
  application_message, flush,
}
use cbbncd.Core.DataBlockPool.{DataBlockPool}
use cbbncd.Core.WorkManager.{
  WorkManager, new_manager, dispatch, keeps_up, dispatch_signal, wait_readdata_for, wait_readdata,
  add_ready_notify,
}
use cbbncd.Core.WorkManager.Worker.{
  got_signal, got_event, next, after_call, is_ready, relieve, finish,
}
use cbbncd.Core.WorkManager.Counts.{
  Fits, flagged, rest-Fits, waiting, Maybe, dispatch-Fits, keeps_up-Fits, dispatch_signal-Fits,
}
use cbbncd.Core.WorkManager.Taking.{Serves, next-Serves}

-- What is asked for: an event, with an answer or without; a signal; to be told when the worker is
-- ready; and the end of the wait of `dispatchFDData`.
pub data Ask : Type 0 where
  sends : Prio → Event → Ask
  sends_answered : Prio → Event → Ask
  raises : ℕ → ℕ → ℕ → Ask
  wants_ready : ℕ → Ask
  awaits_readdata : Ask

abbrev pub asked : Ask → WorkManager → Option WorkManager
asked (sends p e) m = some (dispatch p e m)
asked (sends_answered p e) m = some (keeps_up p (dispatch p e m)).1
asked (raises er signal value) m = dispatch_signal (some er) signal value m
asked (wants_ready er) m = some (add_ready_notify er m)
asked awaits_readdata m = wait_readdata m

abbrev pub events_of : Ask → List (Prio × Event)
events_of (sends p e) = (p, e) ∷ []
events_of (sends_answered p e) = (p, e) ∷ []
events_of (raises er signal value) = []
events_of (wants_ready er) = []
events_of awaits_readdata = []

-- The worker is between two rounds, or has an event for its receiver.
pub data Worker : Type 0 where
  idle : Worker
  busy : Event → Worker

-- What was dispatched, and what the worker has taken.
pub data Reaches : Worker → WorkManager → List (Prio × Event) → List (Prio × Event) → Type 0 where
  starts :
      (pool : DataBlockPool) → Reaches idle (record (new_manager pool) { running = true }) [] []
  asks :
      (w : Worker) (m m' : WorkManager) (sent taken : List (Prio × Event)) (a : Ask)
      → Reaches w m sent taken
      → asked a m ≡ some m'
      → Reaches w m' (sent ++ events_of a) taken
  takes :
      (m m' : WorkManager) (sent taken : List (Prio × Event)) (p : Prio) (e : Event)
      → Reaches idle m sent taken
      → next m ≡ got_event p e m'
      → Reaches (busy e) m' sent (taken ++ (p, e) ∷ [])
  signals :
      (m m' : WorkManager) (sent taken : List (Prio × Event)) (s : SignalData)
      → Reaches idle m sent taken
      → next m ≡ got_signal s m'
      → Reaches idle m' sent taken
  finishes :
      (m : WorkManager) (sent taken : List (Prio × Event)) (e : Event)
      → Reaches (busy e) m sent taken
      → Reaches idle (finish e m).1 sent taken

-- While the worker is busy, one event less may wait.
abbrev pub least : Worker → ℕ
least idle = 9
least (busy e) = 8

pub least_small : (w : Worker) → least w ≤ 32
least_small idle = omega arith
least_small (busy e) = omega arith

unposted-Fits : (k n : ℕ) (m : WorkManager) → Fits k m → Maybe (Fits k) (wait_readdata_for n m)
unposted-Fits k zero m f = tt
unposted-Fits k (suc n) m f = rest-Fits k m _ _ _ _ _ f

asked-Fits : (k : ℕ) (a : Ask) (m : WorkManager) → k ≤ 32 → Fits k m → Maybe (Fits k) (asked a m)
asked-Fits k (sends p e) m s f = dispatch-Fits k p e m f
asked-Fits k (sends_answered p e) m s f =
    keeps_up-Fits k p (dispatch p e m) s (dispatch-Fits k p e m f)
asked-Fits k (raises er signal value) m s f = dispatch_signal-Fits k (some er) signal value m f
asked-Fits k (wants_ready er) m s f = rest-Fits k m _ _ _ _ _ f
asked-Fits k awaits_readdata m s f = unposted-Fits k m.readdata m f

-- What a round does to the rest of the manager leaves the counts.
pub calm-Fits :
    (k : ℕ) (e : Event) (t : EventType) (m : WorkManager) → Fits k m → Fits k (after_call t e m)
calm-Fits k e data_event m f = rest-Fits k m _ _ _ _ _ f
calm-Fits k e databuf m f = rest-Fits k m _ _ _ _ _ f
calm-Fits k e flush m f = rest-Fits k m _ _ _ _ _ f
calm-Fits k e tick m f = f
calm-Fits k e connecting m f = f
calm-Fits k e connected m f = f
calm-Fits k e disconnected m f = f
calm-Fits k e ssl_success m f = f
calm-Fits k e new m f = f
calm-Fits k e fail m f = f
calm-Fits k e send_complete m f = f
calm-Fits k e delete m f = f
calm-Fits k e async_complete m f = f
calm-Fits k e async_complete_p m f = f
calm-Fits k e application_message m f = f

exceeds : (b : Bool) (n : ℕ) → b ≡ true → (b && leb n 8) ≡ false → 9 ≤ n
exceeds b n e h = ground (arith, e, h)

-- Flags that stay set do so because more than eight events wait.
pub still_full :
    (m : WorkManager)
    → Fits 8 m
    → is_ready m ≡ false
    → (m.overloaded || m.lowpriooverloaded) ≡ true
    → 9 ≤ waiting m
still_full m f h set = omega (
  arith,
  f.low_fits.0,
  f.data_fits.0,
  f.high_fits.0,
  exceeds (m.overloaded || m.lowpriooverloaded)
      (m.dataqueue.queuesize + m.highprioqueue.queuesize + m.lowprioqueue.queuesize) set h,
)

relieve-Fits : (m : WorkManager) → Fits 8 m → Fits 9 (relieve m).1
relieve-Fits m f =
    by_test (λ (r : List ℕ × WorkManager). Fits 9 r.1) (is_ready m) _ ([], m)
      (λ _. flagged 8 9 m false false f (λ h. cc))
      (λ h. flagged 8 9 m m.overloaded m.lowpriooverloaded f (λ set. still_full m f h set))

finish-Fits : (e : Event) (m : WorkManager) → Fits 8 m → Fits 9 (finish e m).1
finish-Fits e m f = relieve-Fits (after_call e.type e m) (calm-Fits 8 e e.type m f)

-- In every history the counts fit.
pub reached-Fits :
    {w : Worker} {m : WorkManager} {sent taken : List (Prio × Event)}
    → Reaches w m sent taken
    → Fits (least w) m
reached-Fits (starts pool) = record {
  low_fits = (refl, refl);
  data_fits = (refl, refl);
  high_fits = (refl, refl);
  slots_fit = refl;
  event_fits = refl;
  flags_fit = λ h. cc;
}
reached-Fits (asks w m m' sent taken a r e) =
    subst (Maybe (Fits (least w))) e (asked-Fits (least w) a m (least_small w) (reached-Fits r))
reached-Fits (takes m m' sent taken p first r e) =
    (subst (Serves m) e (next-Serves m (reached-Fits r))).3
reached-Fits (signals m m' sent taken s r e) =
    (subst (Serves m) e (next-Serves m (reached-Fits r))).4
reached-Fits (finishes m sent taken first r) = finish-Fits first m (reached-Fits r)
