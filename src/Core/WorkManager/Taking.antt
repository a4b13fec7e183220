-- ===== src/Core/WorkManager/Taking.antt =====
-- What the worker takes: a signal first, then the first event of the highest priority.
use cbbncd.Base.{
  ℕ, zero, suc, ◌≡◌, refl, ap, List, [], ◌∷◌, length, Bool, true, false, not, Option, none, some,
  ◌==◌, if◌then◌else◌, arith,
}
use cbbncd.Core.BlockingQueue.{BlockingQueue, Popped, blocks, no_front, popped, pop}
use cbbncd.Core.BlockingQueue.Order.{IsCounted, Gives, waited-Gives}
use cbbncd.Core.SignalEvents.{SignalData, SignalEvents, get_clear_first}
use cbbncd.Core.SignalEvents.Slots.{Uncounted, get_clear_first-Uncounted}
use cbbncd.Core.Event.{Prio, low, normal, high, Event}
use cbbncd.Core.WorkManager.{WorkManager}
use cbbncd.Core.WorkManager.Worker.{
  Taken, waits, starves, fails, got_signal, got_event, take_from, take_event, take_signal, woken,
  taken_at, next,
}
use cbbncd.Core.WorkManager.Counts.{Fits, waiting}

-- The events that wait with a priority, in their order.
abbrev pub queue_of : Prio → WorkManager → List Event
queue_of low m = m.lowprioqueue.queue
queue_of normal m = m.dataqueue.queue
queue_of high m = m.highprioqueue.queue

-- `p`'s queue loses its first event `e`, and no other is touched.
abbrev pub Leaves : Prio → Event → WorkManager → WorkManager → Type 0
Leaves low e m m' =
    (m.lowprioqueue.queue ≡ e ∷ m'.lowprioqueue.queue)
    × (m.dataqueue ≡ m'.dataqueue)
    × (m.highprioqueue ≡ m'.highprioqueue)
Leaves normal e m m' =
    (m.dataqueue.queue ≡ e ∷ m'.dataqueue.queue)
    × (m.lowprioqueue ≡ m'.lowprioqueue)
    × (m.highprioqueue ≡ m'.highprioqueue)
Leaves high e m m' =
    (m.highprioqueue.queue ≡ e ∷ m'.highprioqueue.queue)
    × (m.dataqueue ≡ m'.dataqueue)
    × (m.lowprioqueue ≡ m'.lowprioqueue)

-- No event of a higher priority waits.
abbrev pub IsFirst : Prio → WorkManager → Type 0
IsFirst high m = Unit {0}
IsFirst normal m = m.highprioqueue.queue ≡ []
IsFirst low m = (m.highprioqueue.queue ≡ []) × (m.dataqueue.queue ≡ [])

-- The worker waits only if nothing is to be done, never in a queue; otherwise it gets a waiting
-- signal, or if there is none the first event of the highest priority that has one.
abbrev pub Serves : WorkManager → Taken → Type 0
Serves m waits = (m.signalevents.hasevent ≡ 0) × (waiting m ≡ 0)
Serves m (starves m') = ⊥
Serves m fails = ⊥
Serves m (got_signal s m') =
    (m.signalevents.hasevent ≡ suc m'.signalevents.hasevent)
    × (m.lowprioqueue ≡ m'.lowprioqueue)
    × (m.dataqueue ≡ m'.dataqueue)
    × (m.highprioqueue ≡ m'.highprioqueue)
    × Fits 9 m'
Serves m (got_event p e m') =
    (m.signalevents.hasevent ≡ 0) × IsFirst p m × Leaves p e m m' × Fits 8 m'

no_length : {A : Type 0} (xs : List A) → length xs ≡ 0 → xs ≡ []
no_length [] h = refl
no_length (x ∷ xs) h = absurd (omega arith)

take_high-Serves :
    (m : WorkManager) (n : ℕ) (r : Popped Event)
    → Fits 9 m
    → m.signalevents.hasevent ≡ 0
    → m.event ≡ suc n
    → ¬ (m.highprioqueue.queue ≡ [])
    → Gives m.highprioqueue.queue r
    → Serves m (take_from high (record m { event = n }) r)
take_high-Serves m n blocks f s e filled_queue g = filled_queue g
take_high-Serves m n no_front f s e filled_queue g = g
take_high-Serves m n (popped first q) f s e filled_queue (g, counted) = (
  s,
  tt,
  (g, refl, refl),
  record {
    low_fits = f.low_fits;
    data_fits = f.data_fits;
    high_fits = counted;
    slots_fit = f.slots_fit;
    event_fits = omega (arith, f.event_fits, e, ap length g);
    flags_fit = λ h. omega (arith, f.flags_fit h, ap length g);
  },
)

take_normal-Serves :
    (m : WorkManager) (n : ℕ) (r : Popped Event)
    → Fits 9 m
    → m.signalevents.hasevent ≡ 0
    → m.event ≡ suc n
    → m.highprioqueue.queue ≡ []
    → ¬ (m.dataqueue.queue ≡ [])
    → Gives m.dataqueue.queue r
    → Serves m (take_from normal (record m { event = n }) r)
take_normal-Serves m n blocks f s e none_high filled_queue g = filled_queue g
take_normal-Serves m n no_front f s e none_high filled_queue g = g
take_normal-Serves m n (popped first q) f s e none_high filled_queue (g, counted) = (
  s,
  none_high,
  (g, refl, refl),
  record {
    low_fits = f.low_fits;
    data_fits = counted;
    high_fits = f.high_fits;
    slots_fit = f.slots_fit;
    event_fits = omega (arith, f.event_fits, e, ap length g);
    flags_fit = λ h. omega (arith, f.flags_fit h, ap length g);
  },
)

take_low-Serves :
    (m : WorkManager) (n : ℕ) (r : Popped Event)
    → Fits 9 m
    → m.signalevents.hasevent ≡ 0
    → m.event ≡ suc n
    → m.highprioqueue.queue ≡ []
    → m.dataqueue.queue ≡ []
    → Gives m.lowprioqueue.queue r
    → Serves m (take_from low (record m { event = n }) r)
take_low-Serves m n blocks f s e none_high none_data g =
    absurd
      (omega (arith, f.event_fits, s, e, ap length none_high, ap length none_data, ap length g))
take_low-Serves m n no_front f s e none_high none_data g = g
take_low-Serves m n (popped first q) f s e none_high none_data (g, counted) = (
  s,
  (none_high, none_data),
  (g, refl, refl),
  record {
    low_fits = counted;
    data_fits = f.data_fits;
    high_fits = f.high_fits;
    slots_fit = f.slots_fit;
    event_fits = omega (arith, f.event_fits, e, ap length g);
    flags_fit = λ h. omega (arith, f.flags_fit h, ap length g);
  },
)

gives : (q : BlockingQueue Event) → IsCounted q → Gives q.queue (pop q)
gives q (n, k) = waited-Gives q.queue q.queuesize q.content n k

filled : (q : BlockingQueue Event) → IsCounted q → (q.queuesize == 0) ≡ false → ¬ (q.queue ≡ [])
filled q (n, k) e h = ground (arith, n, e, ap length h)

emptied : (q : BlockingQueue Event) → IsCounted q → (q.queuesize == 0) ≡ true → q.queue ≡ []
emptied q (n, k) e = no_length q.queue (ground (arith, n, e))

picked :
    (m : WorkManager) (b : Bool) (x y : Taken)
    → (b ≡ true → Serves m y)
    → (b ≡ false → Serves m x)
    → Serves m (if not b then x else y)
picked m true x y h k = h refl
picked m false x y h k = k refl

take_event-Serves :
    (m : WorkManager) (n : ℕ)
    → Fits 9 m
    → m.signalevents.hasevent ≡ 0
    → m.event ≡ suc n
    → Serves m (take_event (record m { event = n }))
take_event-Serves m n f s e =
    picked m (m.highprioqueue.queuesize == 0) _ _
      (λ h.
        picked m (m.dataqueue.queuesize == 0) _ _
          (λ d.
            take_low-Serves m n (pop m.lowprioqueue) f s e (emptied m.highprioqueue f.high_fits h)
              (emptied m.dataqueue f.data_fits d) (gives m.lowprioqueue f.low_fits))
          (λ d.
            take_normal-Serves m n (pop m.dataqueue) f s e (emptied m.highprioqueue f.high_fits h)
              (filled m.dataqueue f.data_fits d) (gives m.dataqueue f.data_fits)))
      (λ h.
        take_high-Serves m n (pop m.highprioqueue) f s e (filled m.highprioqueue f.high_fits h)
          (gives m.highprioqueue f.high_fits))

take_signal-Serves :
    (m : WorkManager) (n : ℕ) (r : Option (SignalData × SignalEvents))
    → Fits 9 m
    → m.event ≡ suc n
    → ¬ (m.signalevents.hasevent ≡ 0)
    → Uncounted m.signalevents.hasevent r
    → Serves m (take_signal (record m { event = n }) r)
take_signal-Serves m n none f e waits_one u = waits_one u
take_signal-Serves m n (some (signal, s)) f e waits_one (u, t) = (
  u,
  refl,
  refl,
  refl,
  record {
    low_fits = f.low_fits;
    data_fits = f.data_fits;
    high_fits = f.high_fits;
    slots_fit = t;
    event_fits = omega (arith, f.event_fits, e, u);
    flags_fit = f.flags_fit;
  },
)

woken-Serves :
    (m : WorkManager) (n : ℕ)
    → Fits 9 m
    → m.event ≡ suc n
    → Serves m (woken (record m { event = n }))
woken-Serves m n f e =
    picked m (m.signalevents.hasevent == 0) _ _ (λ z. take_event-Serves m n f (ground (arith, z)) e)
      (λ z.
        take_signal-Serves m n (get_clear_first m.signalevents) f e (λ y. ground (arith, z, y))
          (get_clear_first-Uncounted m.signalevents f.slots_fit))

taken_at-Serves : (m : WorkManager) (n : ℕ) → Fits 9 m → m.event ≡ n → Serves m (taken_at n m)
taken_at-Serves m zero f e = (omega (arith, f.event_fits), omega (arith, f.event_fits))
taken_at-Serves m (suc n) f e = woken-Serves m n f e

pub next-Serves : (m : WorkManager) → Fits 9 m → Serves m (next m)
next-Serves m f = taken_at-Serves m m.event f refl
