-- ===== src/Core/IoManager/Elapsing.antt =====
-- The times of the sockets that connect: which run out with a tick, and which go on.
use cbbncd.Base.{
  ℕ, suc, ◌+◌, ◌≤◌, ◌<◌, ◌≡◌, refl, ap, ap₂, ◌∙◌, List, [], ◌∷◌, length, Bool, true, false, ◌&&◌,
  ◌||◌, Option, none, some, ◌==◌, leb, if◌then◌else◌, arith, Bool-cases, inl, inr,
}
use cbbncd.Core.IoManager.{erase_key}
use cbbncd.Core.IoManager.Timeouts.{elapsed, aged, age, first_expired}

abbrev pub is_nothing : Option ℕ → Bool
is_nothing none = true
is_nothing (some time) = false

-- The time of a socket is over.
abbrev pub is_over : ℕ → List (ℕ × Option ℕ) → Bool
is_over id [] = false
is_over id ((sockid, time) ∷ times) = (id == sockid && is_nothing time) || is_over id times

-- A time to which a tick of 100 ms is added reaches CONNECT_TIMEOUT_MS; -1 stands for no time.
abbrev pub reaches_timeout : Option ℕ → Bool
reaches_timeout none = false
reaches_timeout (some time) = leb 4900 time

-- It will be over with the next tick.
abbrev pub times_out : ℕ → List (ℕ × Option ℕ) → Bool
times_out id [] = false
times_out id ((sockid, time) ∷ times) = (id == sockid && reaches_timeout time) || times_out id times

-- The time that stands for a socket, if it is connecting.
abbrev pub time_of : ℕ → List (ℕ × Option ℕ) → Option (Option ℕ)
time_of id [] = none
time_of id ((sockid, time) ∷ times) = if sockid == id then some time else time_of id times

-- The same 100 ms later.
abbrev pub later : Option (Option ℕ) → Option (Option ℕ)
later none = none
later (some none) = some (some 99)
later (some (some time)) = some (some (time + 100))

pub is_nothing-aged : (time : ℕ) → is_nothing (aged time) ≡ leb 5000 time
is_nothing-aged time = ground arith

pub reaches_timeout-elapsed : (time : Option ℕ) → leb 5000 (elapsed time) ≡ reaches_timeout time
reaches_timeout-elapsed none = refl
reaches_timeout-elapsed (some time) = ground arith

pub is_over-age :
    (id : ℕ) (times : List (ℕ × Option ℕ)) → is_over id (age times) ≡ times_out id times
is_over-age id [] = refl
is_over-age id ((sockid, time) ∷ times) =
    ap₂ (λ a b. (id == sockid && a) || b)
      (is_nothing-aged (elapsed time) ∙ reaches_timeout-elapsed time) (is_over-age id times)

pub aged_on :
    (time : Option ℕ)
    → reaches_timeout time ≡ false
    → some (aged (elapsed time)) ≡ later (some time)
aged_on none h = refl
aged_on (some time) h = ground (arith, h)

-- A time that does not run out goes on.
pub time_of-age :
    (id : ℕ) (times : List (ℕ × Option ℕ))
    → times_out id times ≡ false
    → time_of id (age times) ≡ later (time_of id times)
time_of-age id [] h = refl
time_of-age id ((sockid, time) ∷ times) h = elim (Bool-cases (sockid == id)) [
  | inl e ↦ rw e (aged_on time (ground (arith, e, h)))
  | inr e ↦ rw e (time_of-age id times (ground (arith, e, h)))
]

pub time_of-erase_key :
    (id sockid : ℕ) (times : List (ℕ × Option ℕ))
    → time_of id (erase_key sockid times) ≡ (if sockid == id then none else time_of id times)
time_of-erase_key id sockid [] = ground arith
time_of-erase_key id sockid ((k, time) ∷ times) = ground (arith, time_of-erase_key id sockid times)

abbrev pub expired_count : List (ℕ × Option ℕ) → ℕ
expired_count [] = 0
expired_count ((sockid, none) ∷ times) = suc (expired_count times)
expired_count ((sockid, some time) ∷ times) = expired_count times

pub expired_count_le : (times : List (ℕ × Option ℕ)) → expired_count times ≤ length times
expired_count_le [] = omega arith
expired_count_le ((sockid, none) ∷ times) = omega (arith, expired_count_le times)
expired_count_le ((sockid, some time) ∷ times) = omega (arith, expired_count_le times)

pub length-age : (times : List (ℕ × Option ℕ)) → length (age times) ≡ length times
length-age [] = refl
length-age ((sockid, time) ∷ times) = ap suc (length-age times)

-- What is found first has expired, and if nothing is found nothing has.
abbrev pub Found : List (ℕ × Option ℕ) → Option ℕ → Type 0
Found times none = (id : ℕ) → is_over id times ≡ false
Found times (some sockid) = is_over sockid times ≡ true

pub Found-behind :
    (sockid time : ℕ) (times : List (ℕ × Option ℕ)) (o : Option ℕ)
    → Found times o
    → Found ((sockid, some time) ∷ times) o
Found-behind sockid time times none h = λ id. ground (arith, h id)
Found-behind sockid time times (some k) h = ground (arith, h)

pub first_expired-Found : (times : List (ℕ × Option ℕ)) → Found times (first_expired times)
first_expired-Found [] = λ id. refl
first_expired-Found ((sockid, none) ∷ times) = ground arith
first_expired-Found ((sockid, some time) ∷ times) =
    Found-behind sockid time times (first_expired times) (first_expired-Found times)

pub is_over-erase_key :
    (id sockid : ℕ) (times : List (ℕ × Option ℕ))
    → is_over id (erase_key sockid times) ≡ (if sockid == id then false else is_over id times)
is_over-erase_key id sockid [] = ground arith
is_over-erase_key id sockid ((k, time) ∷ times) = ground (arith, is_over-erase_key id sockid times)

pub erase_key_fewer :
    (sockid : ℕ) (times : List (ℕ × Option ℕ))
    → expired_count (erase_key sockid times) ≤ expired_count times
erase_key_fewer sockid [] = omega arith
erase_key_fewer sockid ((k, none) ∷ times) = ground (arith, erase_key_fewer sockid times)
erase_key_fewer sockid ((k, some time) ∷ times) = ground (arith, erase_key_fewer sockid times)

pub erase_key_less :
    (sockid : ℕ) (times : List (ℕ × Option ℕ))
    → is_over sockid times ≡ true
    → expired_count (erase_key sockid times) < expired_count times
erase_key_less sockid [] h = ground (arith, h)
erase_key_less sockid ((k, none) ∷ times) h =
    ground (arith, h, erase_key_less sockid times, erase_key_fewer sockid times)
erase_key_less sockid ((k, some time) ∷ times) h =
    ground (arith, h, erase_key_less sockid times, erase_key_fewer sockid times)
