-- ===== src/Core/SignalEvents/Slots.antt =====
-- What waits in the slots: a signal is kept until it is taken, the first slot first.
use cbbncd.Base.{
  ℕ, suc, ◌≡◌, refl, sym, subst, List, [], ◌∷◌, Bool, true, false, Option, none, some,
  if◌then◌else◌, arith,
}
use cbbncd.Core.SignalEvents.{
  SignalData, SignalEvents, behind, set_slot, counted, set_signal, later, clear_first, uncounted,
  get_clear_first,
}

-- The number of slots in use.
abbrev pub used : List SignalData → ℕ
used [] = 0
used (slot ∷ slots) = if slot.is_set then suc (used slots) else used slots

abbrev pub IsTallied : SignalEvents → Type 0
IsTallied s = s.hasevent ≡ used s.slots

-- A new signal takes one slot more, and one that waits already takes none.
abbrev pub Takes : ℕ → Option (Bool × List SignalData) → Type 0
Takes n none = Unit {0}
Takes n (some (true, slots)) = used slots ≡ suc n
Takes n (some (false, slots)) = used slots ≡ n

behind-Takes :
    (slot : SignalData) (n : ℕ) (r : Option (Bool × List SignalData))
    → Takes n r
    → Takes (if slot.is_set then suc n else n) (behind slot r)
behind-Takes slot n none h = tt
behind-Takes slot n (some (true, slots)) h = ground arith
behind-Takes slot n (some (false, slots)) h = ground arith

set_slot-Takes :
    (er : Option ℕ) (signal value : ℕ) (slots : List SignalData)
    → Takes (used slots) (set_slot er signal value slots)
unfolding set_slot
set_slot-Takes er signal value [] = tt
set_slot-Takes er signal value (slot ∷ slots) =
    ground (arith, set_slot-Takes er signal value slots, behind-Takes slot (used slots))

abbrev pub Tallied : ℕ → Option (Bool × SignalEvents) → Type 0
Tallied n none = Unit {0}
Tallied n (some (true, s)) = (s.hasevent ≡ suc n) × IsTallied s
Tallied n (some (false, s)) = (s.hasevent ≡ n) × IsTallied s

counted-Tallied :
    (s : SignalEvents) (r : Option (Bool × List SignalData))
    → Takes s.hasevent r
    → Tallied s.hasevent (counted s r)
counted-Tallied s none h = tt
counted-Tallied s (some (true, slots)) h = ground arith
counted-Tallied s (some (false, slots)) h = ground arith

-- A waiting signal is taken, if there is one.
abbrev pub Cleared : ℕ → Option (SignalData × List SignalData) → Type 0
Cleared n none = n ≡ 0
Cleared n (some (ret, slots)) = n ≡ suc (used slots)

abbrev slot_of : Bool → ℕ → ℕ → Option ℕ → SignalData
slot_of b signal value er = record { is_set = b; signal = signal; value = value; er = er }

split_slot :
    (b : Bool) (signal value : ℕ) (er : Option ℕ) (slots : List SignalData)
    (r : Option (SignalData × List SignalData))
    → Cleared (used slots) r
    → Cleared (if b then suc (used slots) else used slots) (
        if b
        then some (slot_of b signal value er, slot_of false signal value er ∷ slots)
        else later (slot_of b signal value er) r)
split_slot true signal value er slots r h = refl
split_slot false signal value er slots none h = h
split_slot false signal value er slots (some (ret, left)) h = h

clear_first-Cleared : (slots : List SignalData) → Cleared (used slots) (clear_first slots)
unfolding clear_first
clear_first-Cleared [] = refl
clear_first-Cleared (slot ∷ slots) =
    split_slot slot.is_set slot.signal slot.value slot.er slots (clear_first slots)
      (clear_first-Cleared slots)

-- The signals that wait are one fewer afterwards.
abbrev pub Uncounted : ℕ → Option (SignalData × SignalEvents) → Type 0
Uncounted n none = n ≡ 0
Uncounted n (some (ret, s)) = (n ≡ suc s.hasevent) × IsTallied s

uncounted-Uncounted :
    (s : SignalEvents) (r : Option (SignalData × List SignalData))
    → Cleared s.hasevent r
    → Uncounted s.hasevent (uncounted s r)
uncounted-Uncounted s none h = h
uncounted-Uncounted s (some (ret, slots)) h = (omega arith, omega arith)

pub get_clear_first-Uncounted :
    (s : SignalEvents) → IsTallied s → Uncounted s.hasevent (get_clear_first s)
get_clear_first-Uncounted s t =
    uncounted-Uncounted s (clear_first s.slots)
      (subst (λ n. Cleared n (clear_first s.slots)) (sym t) (clear_first-Cleared s.slots))

pub set_signal-Tallied :
    (er : Option ℕ) (signal value : ℕ) (s : SignalEvents)
    → IsTallied s
    → Tallied s.hasevent (set_signal er signal value s)
set_signal-Tallied er signal value s t = counted-Tallied s (set_slot er signal value s.slots) (
    subst (λ n. Takes n (set_slot er signal value s.slots)) (sym t)
      (set_slot-Takes er signal value s.slots))
