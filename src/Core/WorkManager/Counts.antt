-- ===== src/Core/WorkManager/Counts.antt =====
-- The counts of the work manager fit its queues in every history.
use cbbncd.Base.{
  ℕ, suc, ◌+◌, ◌≤◌, ◌≡◌, List, [], ◌∷◌, length, length-append, by_test, Bool, true, false, ◌||◌,
  Option, none, some, leb, arith, tests,
}
use cbbncd.Core.BlockingQueue.{BlockingQueue, push}
use cbbncd.Core.BlockingQueue.Order.{IsCounted, push-IsCounted}
use cbbncd.Core.SignalEvents.{SignalEvents, set_signal}
use cbbncd.Core.SignalEvents.Slots.{IsTallied, Tallied, set_signal-Tallied}
use cbbncd.Core.Event.{Prio, low, normal, high, Event, AsyncTask}
use cbbncd.Core.DataBlockPool.{DataBlockPool}
use cbbncd.Core.WorkManager.{
  WorkManager, dispatch, overload, low_prio_overload, keeps_up, posted_if, dispatch_signal,
}

-- The number of events that wait.
abbrev pub waiting : WorkManager → ℕ
waiting m = length m.lowprioqueue.queue + length m.dataqueue.queue + length m.highprioqueue.queue

-- The three queues are counted, the slots are tallied, `event` has been posted once for each signal
-- and each event that waits, and at least `k` events wait while the flags are set.
pub record Fits (k : ℕ) (m : WorkManager) : Type 0 where
  pub low_fits : IsCounted m.lowprioqueue
  pub data_fits : IsCounted m.dataqueue
  pub high_fits : IsCounted m.highprioqueue
  pub slots_fit : IsTallied m.signalevents
  pub event_fits : m.event ≡ m.signalevents.hasevent + waiting m
  pub flags_fit : (m.overloaded || m.lowpriooverloaded) ≡ true → k ≤ waiting m

length-push : (q : BlockingQueue Event) (e : Event) → length (push e q).queue ≡ suc (length q.queue)
length-push q e = omega (arith, length-append q.queue (e ∷ []))

-- What else the manager has does not matter.
pub rest-Fits :
    (k : ℕ) (m : WorkManager) (tasks : BlockingQueue AsyncTask) (told : List ℕ) (r s : ℕ)
    (pool : DataBlockPool)
    → Fits k m
    → Fits k (record m {
      asyncqueue = tasks;
      readynotify = told;
      readdata = r;
      flushed = s;
      blockpool = pool;
    })
rest-Fits k m tasks told r s pool f = record {
  low_fits = f.low_fits;
  data_fits = f.data_fits;
  high_fits = f.high_fits;
  slots_fit = f.slots_fit;
  event_fits = f.event_fits;
  flags_fit = f.flags_fit;
}

pub dispatch-Fits :
    (k : ℕ) (p : Prio) (e : Event) (m : WorkManager) → Fits k m → Fits k (dispatch p e m)
dispatch-Fits k low e m f = record {
  low_fits = push-IsCounted e m.lowprioqueue f.low_fits;
  data_fits = f.data_fits;
  high_fits = f.high_fits;
  slots_fit = f.slots_fit;
  event_fits = omega (arith, f.event_fits, length-push m.lowprioqueue e);
  flags_fit = λ h. omega (arith, f.flags_fit h, length-push m.lowprioqueue e);
}
dispatch-Fits k normal e m f = record {
  low_fits = f.low_fits;
  data_fits = push-IsCounted e m.dataqueue f.data_fits;
  high_fits = f.high_fits;
  slots_fit = f.slots_fit;
  event_fits = omega (arith, f.event_fits, length-push m.dataqueue e);
  flags_fit = λ h. omega (arith, f.flags_fit h, length-push m.dataqueue e);
}
dispatch-Fits k high e m f = record {
  low_fits = f.low_fits;
  data_fits = f.data_fits;
  high_fits = push-IsCounted e m.highprioqueue f.high_fits;
  slots_fit = f.slots_fit;
  event_fits = omega (arith, f.event_fits, length-push m.highprioqueue e);
  flags_fit = λ h. omega (arith, f.flags_fit h, length-push m.highprioqueue e);
}

-- Flags that are set for a reason.
pub flagged :
    (j k : ℕ) (m : WorkManager) (a b : Bool)
    → Fits j m
    → ((a || b) ≡ true → k ≤ waiting m)
    → Fits k (record m { overloaded = a; lowpriooverloaded = b })
flagged j k m a b f h = record {
  low_fits = f.low_fits;
  data_fits = f.data_fits;
  high_fits = f.high_fits;
  slots_fit = f.slots_fit;
  event_fits = f.event_fits;
  flags_fit = h;
}

overload-Fits : (k : ℕ) (m : WorkManager) → k ≤ 32 → Fits k m → Fits k (overload m).1
overload-Fits k m s f =
    by_test (Fits k) (leb 32 (m.highprioqueue.queuesize + m.dataqueue.queuesize)) _ m
      (λ e. flagged k k m true true f (λ _. omega (tests, e, s, f.high_fits.0, f.data_fits.0)))
      (λ _. f)

low_prio_overload-Fits :
    (k : ℕ) (m : WorkManager) → k ≤ 32 → Fits k m → Fits k (low_prio_overload m).1
low_prio_overload-Fits k m s f =
    by_test (Fits k)
      (leb 32 (m.highprioqueue.queuesize + m.dataqueue.queuesize + m.lowprioqueue.queuesize)) _ m
      (λ e.
        flagged k k m m.overloaded true f
          (λ _. omega (tests, e, s, f.high_fits.0, f.data_fits.0, f.low_fits.0)))
      (λ _. f)

pub keeps_up-Fits :
    (k : ℕ) (p : Prio) (m : WorkManager) → k ≤ 32 → Fits k m → Fits k (keeps_up p m).1
keeps_up-Fits k low m s f = low_prio_overload-Fits k m s f
keeps_up-Fits k normal m s f = overload-Fits k m s f
keeps_up-Fits k high m s f = overload-Fits k m s f

abbrev pub Maybe : (WorkManager → Type 0) → Option WorkManager → Type 0
Maybe P none = Unit {0}
Maybe P (some m) = P m

posted_if-Fits :
    (k : ℕ) (m : WorkManager) (r : Option (Bool × SignalEvents))
    → Fits k m
    → Tallied m.signalevents.hasevent r
    → Maybe (Fits k) (posted_if m r)
posted_if-Fits k m none f t = tt
posted_if-Fits k m (some (true, s)) f (n, t) = record {
  low_fits = f.low_fits;
  data_fits = f.data_fits;
  high_fits = f.high_fits;
  slots_fit = t;
  event_fits = omega (arith, n, f.event_fits);
  flags_fit = f.flags_fit;
}
posted_if-Fits k m (some (false, s)) f (n, t) = record {
  low_fits = f.low_fits;
  data_fits = f.data_fits;
  high_fits = f.high_fits;
  slots_fit = t;
  event_fits = omega (arith, n, f.event_fits);
  flags_fit = f.flags_fit;
}

pub dispatch_signal-Fits :
    (k : ℕ) (er : Option ℕ) (signal value : ℕ) (m : WorkManager)
    → Fits k m
    → Maybe (Fits k) (dispatch_signal er signal value m)
dispatch_signal-Fits k er signal value m f =
    posted_if-Fits k m (set_signal er signal value m.signalevents) f
      (set_signal-Tallied er signal value m.signalevents f.slots_fit)
