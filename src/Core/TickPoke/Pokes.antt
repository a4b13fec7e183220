-- ===== src/Core/TickPoke/Pokes.antt =====
-- A timer fires as often as its interval has passed.
use cbbncd.Base.{
  ℕ, suc, ◌+◌, ◌*◌, ◌≤◌, ◌<◌, ◌≡◌, refl, sym, ap, ◌⊎◌, inl, inr, ◌∙◌, subst, List, [], ◌∷◌, ◌++◌,
  Bool, true, false, ◌&&◌, ◌==◌, leb, if◌then◌else◌, by_test, arith,
}
use native.Mathlib.Nat.{add-mul}
use cbbncd.Core.TickPoke.{
  TickPokeTarget, tick_target, TickPoke, with_call, tick_targets, ticked, poke, is_target,
}

-- How often a receiver is called with a message.
abbrev pub pokes : ℕ → ℕ → List (ℕ × ℕ) → ℕ
pokes pokee message [] = 0
pokes pokee message ((er, m) ∷ calls) =
    if er == pokee && m == message
    then suc (pokes pokee message calls)
    else pokes pokee message calls

-- No other target has this receiver and this message.
abbrev pub Lacks : ℕ → ℕ → List TickPokeTarget → Type 0
Lacks pokee message [] = Unit {0}
Lacks pokee message (t ∷ targets) =
    (is_target pokee message t ≡ false) × Lacks pokee message targets

-- Just one target has them: `t`, between the others.
abbrev pub Holds : ℕ → ℕ → TickPokeTarget → List TickPokeTarget → Type 0
Holds pokee message t [] = ⊥
Holds pokee message t (u ∷ targets) =
    ((u ≡ t) × (is_target pokee message t ≡ true) × Lacks pokee message targets)
    ⊎ ((is_target pokee message u ≡ false) × Holds pokee message t targets)

abbrev bit : Bool → ℕ
bit true = 1
bit false = 0

-- A tick calls nobody for the others.
abbrev Quiet : ℕ → ℕ → List (ℕ × ℕ) × List TickPokeTarget → Type 0
Quiet pokee message (calls, targets) = (pokes pokee message calls ≡ 0) × Lacks pokee message targets

-- The call of another target changes no count.
other_call :
    (pokee message : ℕ) (t : TickPokeTarget) (calls : List (ℕ × ℕ))
    → is_target pokee message t ≡ false
    → pokes pokee message ((t.pokee, t.message) ∷ calls) ≡ pokes pokee message calls
other_call pokee message t calls e =
    ap (λ b. if b then suc (pokes pokee message calls) else pokes pokee message calls) e

own_call :
    (pokee message : ℕ) (t : TickPokeTarget) (calls : List (ℕ × ℕ))
    → is_target pokee message t ≡ true
    → pokes pokee message ((t.pokee, t.message) ∷ calls) ≡ suc (pokes pokee message calls)
own_call pokee message t calls e =
    ap (λ b. if b then suc (pokes pokee message calls) else pokes pokee message calls) e

with_call-Quiet :
    (pokee message msecs : ℕ) (t : TickPokeTarget) (r : List (ℕ × ℕ) × List TickPokeTarget)
    → is_target pokee message t ≡ false
    → Quiet pokee message r
    → Quiet pokee message (with_call t (tick_target msecs t) r)
with_call-Quiet pokee message msecs t (calls, targets) other (none_else, lacks) =
    by_test (λ (d : Bool × TickPokeTarget). Quiet pokee message (with_call t d (calls, targets)))
      (leb t.interval (t.currentval + msecs)) _ _
      (λ _. (other_call pokee message t calls other ∙ none_else, (other, lacks)))
      (λ _. (none_else, (other, lacks)))

tick_targets-Quiet :
    (pokee message msecs : ℕ) (targets : List TickPokeTarget)
    → Lacks pokee message targets
    → Quiet pokee message (tick_targets msecs targets)
unfolding tick_targets
tick_targets-Quiet pokee message msecs [] h = (refl, tt)
tick_targets-Quiet pokee message msecs (t ∷ targets) (other, h) =
    with_call-Quiet pokee message msecs t (tick_targets msecs targets) other
      (tick_targets-Quiet pokee message msecs targets h)

-- A tick calls the receiver if the time of the target has come, and the target stays the only one.
abbrev Fires : ℕ → ℕ → Bool × TickPokeTarget → List (ℕ × ℕ) × List TickPokeTarget → Type 0
Fires pokee message (due, t') (calls, targets) =
    (pokes pokee message calls ≡ bit due) × Holds pokee message t' targets

own-Fires :
    (pokee message msecs : ℕ) (t : TickPokeTarget) (r : List (ℕ × ℕ) × List TickPokeTarget)
    → is_target pokee message t ≡ true
    → Quiet pokee message r
    → Fires pokee message (tick_target msecs t) (with_call t (tick_target msecs t) r)
own-Fires pokee message msecs t (calls, targets) own (none_else, lacks) =
    by_test (λ (d : Bool × TickPokeTarget). Fires pokee message d (with_call t d (calls, targets)))
      (leb t.interval (t.currentval + msecs)) _ _
      (λ _. (own_call pokee message t calls own ∙ ap suc none_else, inl (refl, own, lacks)))
      (λ _. (none_else, inl (refl, own, lacks)))

other-Fires :
    (pokee message msecs : ℕ) (u : TickPokeTarget) (d : Bool × TickPokeTarget)
    (r : List (ℕ × ℕ) × List TickPokeTarget)
    → is_target pokee message u ≡ false
    → Fires pokee message d r
    → Fires pokee message d (with_call u (tick_target msecs u) r)
other-Fires pokee message msecs u (due, t') (calls, targets) other (count, holds) =
    by_test
      (λ (e : Bool × TickPokeTarget).
        Fires pokee message (due, t') (with_call u e (calls, targets)))
      (leb u.interval (u.currentval + msecs)) _ _
      (λ _. (other_call pokee message u calls other ∙ count, inr (other, holds)))
      (λ _. (count, inr (other, holds)))

tick_targets-Fires :
    (pokee message msecs : ℕ) (t : TickPokeTarget) (targets : List TickPokeTarget)
    → Holds pokee message t targets
    → Fires pokee message (tick_target msecs t) (tick_targets msecs targets)
unfolding tick_targets
tick_targets-Fires pokee message msecs t [] h = absurd h
tick_targets-Fires pokee message msecs t (u ∷ targets) (inl (same, own, lacks)) =
    subst
      (λ v.
        Fires pokee message (tick_target msecs t)
          (with_call v (tick_target msecs v) (tick_targets msecs targets)))
      (sym same)
      (own-Fires pokee message msecs t (tick_targets msecs targets) own
        (tick_targets-Quiet pokee message msecs targets lacks))
tick_targets-Fires pokee message msecs t (u ∷ targets) (inr (other, h)) =
    other-Fires pokee message msecs u (tick_target msecs t) (tick_targets msecs targets) other
      (tick_targets-Fires pokee message msecs t targets h)

-- Ticks one after the other, and all their calls.
abbrev pub joined : List (ℕ × ℕ) → List (ℕ × ℕ) × TickPoke → List (ℕ × ℕ) × TickPoke
joined calls (more, p) = (calls ++ more, p)

abbrev pub poke_all : List ℕ → TickPoke → List (ℕ × ℕ) × TickPoke
poke_all [] p = ([], p)
poke_all (msecs ∷ times) p = joined (poke msecs p).0 (poke_all times (poke msecs p).1)

abbrev pub total : List ℕ → ℕ
total [] = 0
total (msecs ∷ times) = msecs + total times

-- No tick is longer than the interval.
abbrev pub IsFine : ℕ → List ℕ → Type 0
IsFine interval [] = Unit {0}
IsFine interval (msecs ∷ times) = (msecs ≤ interval) × IsFine interval times

pokes-append :
    (pokee message : ℕ) (a b : List (ℕ × ℕ))
    → pokes pokee message (a ++ b) ≡ pokes pokee message a + pokes pokee message b
pokes-append pokee message [] b = omega arith
pokes-append pokee message ((er, m) ∷ a) b = ground (arith, pokes-append pokee message a b)

-- The target after some ticks: its calls and its value make up the time.
abbrev pub Elapses : ℕ → ℕ → TickPokeTarget → ℕ → List (ℕ × ℕ) × TickPoke → Type 0
Elapses pokee message t time (calls, p) =
    (t' : TickPokeTarget) × Holds pokee message t' p.targets
    × (pokes pokee message calls * t.interval + t'.currentval ≡ t.currentval + time)
    × (t'.currentval < t.interval)

-- The value after one tick.
abbrev Steps : TickPokeTarget → ℕ → Bool × TickPokeTarget → Type 0
Steps t msecs (due, t') =
    (bit due * t.interval + t'.currentval ≡ t.currentval + msecs)
    × (t'.currentval < t.interval)
    × (t'.interval ≡ t.interval)

tick_target-Steps :
    (t : TickPokeTarget) (msecs : ℕ)
    → t.currentval < t.interval
    → msecs ≤ t.interval
    → Steps t msecs (tick_target msecs t)
tick_target-Steps t msecs v h =
    by_test (Steps t msecs) (leb t.interval (t.currentval + msecs)) _ _
      (λ e. (ground (arith, e, v, h), ground (arith, e, v, h), refl))
      (λ e. (ground (arith, e, v, h), ground (arith, e, v, h), refl))

whole_time :
    (d k n i j v c u m time : ℕ)
    → n ≡ d + k
    → d * i + v ≡ c + m
    → j ≡ i
    → k * j + u ≡ v + time
    → n * i + u ≡ c + (m + time)
whole_time d k n i j v c u m time e step same rest =
    omega (arith, ap (λ x. x * i) e, add-mul d k i, ap (λ x. k * x) same, step, rest)

joined-Elapses :
    (pokee message msecs : ℕ) (time : ℕ) (t t' : TickPokeTarget) (due : Bool) (calls : List (ℕ × ℕ))
    (r : List (ℕ × ℕ) × TickPoke)
    → pokes pokee message calls ≡ bit due
    → Steps t msecs (due, t')
    → Elapses pokee message t' time r
    → Elapses pokee message t (msecs + time) (joined calls r)
joined-Elapses pokee message msecs time t t' due calls (more, p) count (step, v, same)
      (u, holds, e, w) =
    (
      u,
      holds,
      whole_time (bit due) (pokes pokee message more) (pokes pokee message (calls ++ more))
          t.interval t'.interval t'.currentval t.currentval u.currentval msecs time
          (pokes-append pokee message calls more ∙ ap (λ n. n + pokes pokee message more) count)
          step same e,
      omega (arith, w, same),
    )

on_off : (b : Bool) → b ≡ true → b ≡ false → ⊥
on_off true e h = cc
on_off false e h = cc

-- While no tick is longer than the interval, and `stopPoke` is not called, the receiver of a timer
-- is called with its message each time that the interval has passed: the calls and what the target
-- has counted since the last one make up just the time of the ticks, and what it has counted is
-- less than an interval.
pub poke_all-Elapses :
    (pokee message : ℕ) (times : List ℕ) (t : TickPokeTarget) (p : TickPoke)
    → p.forever ≡ true
    → Holds pokee message t p.targets
    → t.currentval < t.interval
    → IsFine t.interval times
    → Elapses pokee message t (total times) (poke_all times p)
unfolding poke
poke_all-Elapses pokee message [] t p on h v fine = (t, h, omega arith, v)
poke_all-Elapses pokee message (msecs ∷ times) t p on h v (fits, fine) =
    let (count, holds) = tick_targets-Fires pokee message msecs t p.targets h in
    let steps = tick_target-Steps t msecs v fits in
    by_test
      (λ (r : List (ℕ × ℕ) × TickPoke).
        Elapses pokee message t (msecs + total times) (joined r.0 (poke_all times r.1)))
      p.forever (ticked p (tick_targets msecs p.targets)) ([], p)
      (λ _.
        joined-Elapses pokee message msecs (total times) t (tick_target msecs t).1
          (tick_target msecs t).0 (tick_targets msecs p.targets).0
          (poke_all times (ticked p (tick_targets msecs p.targets)).1) count steps
          (poke_all-Elapses pokee message times (tick_target msecs t).1
            (ticked p (tick_targets msecs p.targets)).1 on holds (omega (arith, steps.1, steps.2))
            (subst (λ i. IsFine i times) (sym steps.2) fine)))
      (λ off. absurd (on_off p.forever on off))
