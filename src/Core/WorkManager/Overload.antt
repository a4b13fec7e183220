-- ===== src/Core/WorkManager/Overload.antt =====
-- What the IOManager is told of the load of the worker.
use cbbncd.Base.{
  ℕ, ◌+◌, ◌≤◌, ◌<◌, ◌≡◌, refl, ◌⊎◌, inl, inr, List, [], length, Bool, true, false, not, ◌||◌, ◌&&◌,
  leb, by_test, arith,
}
use cbbncd.Core.Event.{Prio, low, normal, high, Event}
use cbbncd.Core.WorkManager.{WorkManager, dispatch, is_overload, is_low_overload, keeps_up}
use cbbncd.Core.WorkManager.Worker.{is_ready, after_call, relieve, finish}
use cbbncd.Core.WorkManager.Counts.{Fits, waiting, dispatch-Fits, keeps_up-Fits}
use cbbncd.Core.WorkManager.Histories.{
  Worker, busy, least, least_small, Reaches, still_full, calm-Fits, reached-Fits,
}

-- The events that count for an answer.
abbrev pub ahead : Prio → WorkManager → ℕ
ahead low m = waiting m
ahead normal m = length m.dataqueue.queue + length m.highprioqueue.queue
ahead high m = length m.dataqueue.queue + length m.highprioqueue.queue

-- The answer is yes, and fewer than 32 events wait; or it is no, and a flag is set.
abbrev pub Answers : Prio → Bool × WorkManager → Type 0
Answers p (true, m) = ahead p m < 32
Answers p (false, m) = (m.overloaded || m.lowpriooverloaded) ≡ true

below : (n : ℕ) → leb 32 n ≡ false → n < 32
below n e = ground (arith, e)

at_most : (b : Bool) (n : ℕ) → (b && leb n 8) ≡ true → n ≤ 8
at_most b n e = ground (arith, e)

was_flagged : (b c : Bool) → (b && c) ≡ true → b ≡ true
was_flagged true c e = refl
was_flagged false c e = cc

orb : (a b : Bool) → b ≡ true → (a || b) ≡ true
orb a b e = ground (arith, e)

low_answer :
    (a b : Bool) (m : WorkManager)
    → (b ≡ false → waiting m < 32)
    → Answers low (not b, record m { overloaded = a; lowpriooverloaded = b })
low_answer a true m h = orb a true refl
low_answer a false m h = h refl

high_answer :
    (a b : Bool) (m : WorkManager)
    → (a ≡ false → ahead high m < 32)
    → Answers high (not a, record m { overloaded = a; lowpriooverloaded = b })
high_answer true b m h = refl
high_answer false b m h = h refl

low-Answers : (k : ℕ) (m : WorkManager) → Fits k m → Answers low (keeps_up low m)
low-Answers k m f =
    by_test (λ (m' : WorkManager). Answers low (not m'.lowpriooverloaded, m')) (is_low_overload m) _
      m (λ _. low_answer m.overloaded true m (λ h. cc))
      (λ e.
        low_answer m.overloaded m.lowpriooverloaded m
          (λ _. omega (arith, below _ e, f.low_fits.0, f.data_fits.0, f.high_fits.0)))

high-Answers : (k : ℕ) (m : WorkManager) → Fits k m → Answers high (keeps_up high m)
high-Answers k m f =
    by_test (λ (m' : WorkManager). Answers high (not m'.overloaded, m')) (is_overload m) _ m
      (λ _. high_answer true true m (λ h. cc))
      (λ e.
        high_answer m.overloaded m.lowpriooverloaded m
          (λ _. omega (arith, below _ e, f.data_fits.0, f.high_fits.0)))

normal_high : (r : Bool × WorkManager) → Answers high r → Answers normal r
normal_high (true, m) h = h
normal_high (false, m) h = h

keeps_up-Answers : (k : ℕ) (p : Prio) (m : WorkManager) → Fits k m → Answers p (keeps_up p m)
keeps_up-Answers k low m f = low-Answers k m f
keeps_up-Answers k normal m f = normal_high (keeps_up high m) (high-Answers k m f)
keeps_up-Answers k high m f = high-Answers k m f

refused :
    (k : ℕ) (p : Prio) (r : Bool × WorkManager)
    → Answers p r
    → Fits k r.1
    → r.0 ≡ false
    → k ≤ waiting r.1
refused k p (true, m) a f e = cc
refused k p (false, m) a f e = f.flags_fit a

-- In every history in which no receiver is flushed and the manager is not stopped: an event that is
-- answered with yes leaves fewer than 32 events that wait ahead
-- of the next one, those of the two higher priorities, or for one of low priority all; after one
-- that is answered with no, a flag is set and at least nine events wait, or eight while the worker
-- has another one, so that rounds of the worker follow.
pub answer-Bounds :
    {w : Worker} {m : WorkManager} {sent taken : List (Prio × Event)} (p : Prio) (e : Event)
    → Reaches w m sent taken
    → Answers p (keeps_up p (dispatch p e m))
      × ((keeps_up p (dispatch p e m)).0 ≡ false
          → least w ≤ waiting (keeps_up p (dispatch p e m)).1)
answer-Bounds {w = w} {m = m} p e r =
    let f = dispatch-Fits (least w) p e m (reached-Fits r) in
    let answers = keeps_up-Answers (least w) p (dispatch p e m) f in
    (
      answers,
      refused (least w) p (keeps_up p (dispatch p e m)) answers
          (keeps_up-Fits (least w) p (dispatch p e m) (least_small w) f),
    )

-- How a round leaves the flags.
abbrev pub Relieved : WorkManager → List ℕ × WorkManager → Type 0
Relieved m (told, m') =
    ((told ≡ m.readynotify)
      × ((m.overloaded || m.lowpriooverloaded) ≡ true)
      × ((m'.overloaded || m'.lowpriooverloaded) ≡ false)
      × (waiting m ≤ 8))
    ⊎ ((told ≡ [])
        × (m'.overloaded ≡ m.overloaded)
        × (m'.lowpriooverloaded ≡ m.lowpriooverloaded)
        × ((m'.overloaded || m'.lowpriooverloaded) ≡ true → 9 ≤ waiting m))

relieve-Relieved : (m : WorkManager) → Fits 8 m → Relieved m (relieve m)
relieve-Relieved m f =
    by_test (λ (r : List ℕ × WorkManager). Relieved m r) (is_ready m) _ ([], m)
      (λ e. inl (
        refl,
        was_flagged _ _ e,
        refl,
        omega (
          arith,
          at_most (m.overloaded || m.lowpriooverloaded)
              (m.dataqueue.queuesize + m.highprioqueue.queuesize + m.lowprioqueue.queuesize) e,
          f.low_fits.0,
          f.data_fits.0,
          f.high_fits.0,
        ),
      ))
      (λ e. inr (refl, refl, refl, still_full m f e))

-- In every history in which no receiver is flushed and the manager is not stopped, the end of a
-- round with an event does one of two things. Where a flag was set and at most eight events wait, it
-- tells all receivers that asked for it that the worker is ready, and no flag is set any more.
-- Otherwise no flag was set or more than eight events wait, and it tells nobody and leaves the flags.
pub finish-Relieves :
    {m : WorkManager} {sent taken : List (Prio × Event)} (e : Event)
    → Reaches (busy e) m sent taken
    → Relieved (after_call e.type e m) (finish e m)
finish-Relieves {m = m} e r =
    relieve-Relieved (after_call e.type e m) (calm-Fits 8 e e.type m (reached-Fits r))
