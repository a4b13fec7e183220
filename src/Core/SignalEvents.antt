-- ===== src/Core/SignalEvents.antt =====
-- core/signalevents.cpp: the signals that wait, in ten slots. A receiver is a number, and none
-- stands for nullptr. The lock is left out. None as a result: the assertion fails.
pub mod Slots
use cbbncd.Base.{
  ℕ, zero, suc, ◌+◌, ◌-◌, List, [], ◌∷◌, replicate, Bool, true, false, not, ◌&&◌, Option, none,
  some, ◌==◌, if◌then◌else◌,
}

pub record SignalData : Type 0 where
  pub is_set : Bool
  pub signal : ℕ
  pub value : ℕ
  pub er : Option ℕ

pub record SignalEvents : Type 0 where
  pub hasevent : ℕ
  pub slots : List SignalData

abbrev pub empty_slot : SignalData
empty_slot = record { is_set = false; signal = 0; value = 0; er = none }

-- `new SignalEvents()`.
abbrev pub new_signals : SignalEvents
new_signals = record { hasevent = 0; slots = replicate 10 empty_slot }

abbrev pub same_receiver : Option ℕ → Option ℕ → Bool
same_receiver none none = true
same_receiver (some a) (some b) = a == b
same_receiver a b = false

abbrev pub is_same : Option ℕ → ℕ → ℕ → SignalData → Bool
is_same er signal value slot =
    same_receiver slot.er er && (slot.signal == signal && slot.value == value)

-- The search goes on behind a slot that it passes over.
abbrev pub behind : SignalData → Option (Bool × List SignalData) → Option (Bool × List SignalData)
behind slot none = none
behind slot (some (fresh, slots)) = some (fresh, slot ∷ slots)

-- The loop of `set`.
unfoldable pub set_slot : Option ℕ → ℕ → ℕ → List SignalData → Option (Bool × List SignalData)
set_slot er signal value [] = none
set_slot er signal value (slot ∷ slots) =
    let rest = behind slot (set_slot er signal value slots) in
    if not slot.is_set
    then some (true, record { is_set = true; signal = signal; value = value; er = er } ∷ slots)
    else if is_same er signal value slot
    then some (false, slot ∷ slots)
    else rest

abbrev pub counted : SignalEvents → Option (Bool × List SignalData) → Option (Bool × SignalEvents)
counted s none = none
counted s (some (true, slots)) = some (true, record { hasevent = s.hasevent + 1; slots = slots })
counted s (some (false, slots)) = some (false, record s { slots = slots })

-- `set`. The Boolean tells whether the signal is new.
abbrev pub set_signal : Option ℕ → ℕ → ℕ → SignalEvents → Option (Bool × SignalEvents)
set_signal er signal value s = counted s (set_slot er signal value s.slots)

abbrev pub has_event : SignalEvents → Bool
has_event s = not (s.hasevent == 0)

abbrev pub later :
    SignalData → Option (SignalData × List SignalData) → Option (SignalData × List SignalData)
later slot none = none
later slot (some (ret, slots)) = some (ret, slot ∷ slots)

-- The loop of `getClearFirst`.
unfoldable pub clear_first : List SignalData → Option (SignalData × List SignalData)
clear_first [] = none
clear_first (slot ∷ slots) =
    let rest = later slot (clear_first slots) in
    if slot.is_set then some (slot, record slot { is_set = false } ∷ slots) else rest

abbrev pub uncounted :
    SignalEvents → Option (SignalData × List SignalData) → Option (SignalData × SignalEvents)
uncounted s none = none
uncounted s (some (ret, slots)) = some (ret, record { hasevent = s.hasevent - 1; slots = slots })

abbrev pub get_clear_first : SignalEvents → Option (SignalData × SignalEvents)
get_clear_first s = uncounted s (clear_first s.slots)

-- One round of the loop of `flushEventReceiver`.
abbrev pub flush_slot : Option ℕ → SignalData → SignalEvents → SignalEvents
flush_slot er slot s =
    if slot.is_set && same_receiver slot.er er
    then record { hasevent = s.hasevent - 1; slots = record slot { is_set = false } ∷ s.slots }
    else record s { slots = slot ∷ s.slots }

-- The loop, here from the last slot to the first.
unfoldable pub flush_slots : Option ℕ → ℕ → List SignalData → SignalEvents
flush_slots er n [] = record { hasevent = n; slots = [] }
flush_slots er n (slot ∷ slots) = flush_slot er slot (flush_slots er n slots)

-- `flushEventReceiver`.
abbrev pub flush_signals : Option ℕ → SignalEvents → SignalEvents
flush_signals er s = flush_slots er s.hasevent s.slots
