-- ===== src/Base/Text/Number.antt =====
-- Numbers are read back as they were printed.
use cbbncd.Base.Int.{pos}
use cbbncd.Base.Tests.{ltb, Bool-cases}
use Prim.Native.Nat.{ℕ, zero, suc, ◌+◌, ◌-◌, ◌*◌, ◌/◌, ◌%◌, ◌<◌, ◌^◌}
use mathlib.Core.Path.{◌≡◌, refl, ap, ◌∙◌, sym}
use mathlib.Core.Logic.{inl, inr}
use mathlib.Core.Bool.{true, false}
use mathlib.Core.Option.{some}
use mathlib.Core.List.{[], ◌∷◌, ◌++◌, append_assoc, append-nil}
use native.Mathlib.Omega.{arith}
use cbbncd.Base.Text.{
  Bytes, Lacks, is_digit, print, to_string, skip_space, digits_value, parse_signed, stoi, stol,
}

digit_step :
    (acc d : ℕ) (rest : Bytes)
    → d < 10
    → digits_value acc ((b'0' + d) ∷ rest) ≡ digits_value (acc * 10 + d) rest
unfolding digits_value
digit_step acc d rest h =
    let e : b'0' + d - b'0' ≡ d = omega arith in
    let digit : is_digit (b'0' + d) ≡ true = ground arith in rw (digit, e)

digits_value-print :
    (fuel n : ℕ) (rest : Bytes)
    → n < fuel
    → digits_value 0 (print fuel n ++ rest) ≡ digits_value n rest
unfolding print
digits_value-print zero n rest h = absurd (omega arith)
digits_value-print (suc fuel) n rest h = elim (Bool-cases (ltb n 10)) [
  | inl small ↦
      rw small (digit_step 0 n rest (ground arith) ∙ ap (λ k. digits_value k rest) (omega arith))
  | inr large ↦
      rw (large, append_assoc)
        (digits_value-print fuel (n / 10) ((b'0' + n % 10) ∷ rest) (ground arith)
          ∙ digit_step (n / 10) (n % 10) rest (omega arith)
          ∙ ap (λ k. digits_value k rest) (omega arith))
]

-- Every byte of a printed number is a digit.
abbrev pub AllDigits : Bytes → Type 0
AllDigits [] = Unit {0}
AllDigits (c ∷ s) = (is_digit c ≡ true) × AllDigits s

AllDigits-append : (s t : Bytes) → AllDigits s → AllDigits t → AllDigits (s ++ t)
AllDigits-append [] t h k = k
AllDigits-append (c ∷ s) t (e, h) k = (e, AllDigits-append s t h k)

print-AllDigits : (fuel n : ℕ) → AllDigits (print fuel n)
unfolding print
print-AllDigits zero n = tt
print-AllDigits (suc fuel) n = elim (Bool-cases (ltb n 10)) [
  | inl small ↦ rw small (ground arith, tt)
  | inr large ↦ rw large (AllDigits-append _ _ (print-AllDigits fuel (n / 10)) (ground arith, tt))
]

print_nonempty : (fuel n : ℕ) → n < fuel → (c : ℕ) × (s : Bytes) × (print fuel n ≡ c ∷ s)
unfolding print
print_nonempty zero n h = absurd (omega arith)
print_nonempty (suc fuel) n h = elim (Bool-cases (ltb n 10)) [
  | inl small ↦ rw small (b'0' + n, [], refl)
  | inr large ↦
      let (c, s, e) = print_nonempty fuel (n / 10) (ground arith) in
      rw (large, e) (c, s ++ (b'0' + n % 10) ∷ [], refl)
]

-- The text does not go on with a digit.
abbrev pub Stops : Bytes → Type 0
Stops [] = Unit {0}
Stops (c ∷ s) = is_digit c ≡ false

digits_value-Stops : (n : ℕ) (rest : Bytes) → Stops rest → digits_value n rest ≡ n
unfolding digits_value
digits_value-Stops n [] h = refl
digits_value-Stops n (c ∷ rest) h = rw h

signed_digit :
    (c : ℕ) (s : Bytes)
    → is_digit c ≡ true
    → parse_signed (skip_space (c ∷ s)) ≡ some (pos (digits_value 0 (c ∷ s)))
unfolding skip_space parse_signed
signed_digit c s h = ground arith

signed-to_string :
    (n : ℕ) (rest : Bytes)
    → Stops rest
    → parse_signed (skip_space (to_string n ++ rest)) ≡ some (pos n)
unfolding to_string
signed-to_string n rest h =
    let (c, s, e) = print_nonempty (suc n) n (omega arith) in
    let value = digits_value-print (suc n) n rest (omega arith) ∙ digits_value-Stops n rest h in
    let all = print-AllDigits (suc n) n in
    rw e (signed_digit c (s ++ rest) (rw e at all).0 ∙ ap (λ k. some (pos k)) (rw e at value))

pub stoi-to_string :
    (n : ℕ) (rest : Bytes) → n < 2 ^ 31 → Stops rest → stoi (to_string n ++ rest) ≡ some (pos n)
unfolding stoi
stoi-to_string n rest h k = rw (signed-to_string n rest k) (ground arith)

pub stol-to_string :
    (n : ℕ) (rest : Bytes) → n < 2 ^ 63 → Stops rest → stol (to_string n ++ rest) ≡ some (pos n)
unfolding stol
stol-to_string n rest h k = rw (signed-to_string n rest k) (ground arith)

AllDigits-Lacks : (c : ℕ) (s : Bytes) → is_digit c ≡ false → AllDigits s → Lacks c s
AllDigits-Lacks c [] h k = tt
AllDigits-Lacks c (x ∷ s) h (e, k) = (ground arith, AllDigits-Lacks c s h k)

pub to_string-Lacks : (c n : ℕ) → is_digit c ≡ false → Lacks c (to_string n)
unfolding to_string
to_string-Lacks c n h = AllDigits-Lacks c _ h (print-AllDigits (suc n) n)

pub stoi-to_string_end : (n : ℕ) → n < 2 ^ 31 → stoi (to_string n) ≡ some (pos n)
stoi-to_string_end n h = ap stoi (sym (append-nil _)) ∙ stoi-to_string n [] h tt

pub stol-to_string_end : (n : ℕ) → n < 2 ^ 63 → stol (to_string n) ≡ some (pos n)
stol-to_string_end n h = ap stol (sym (append-nil _)) ∙ stol-to_string n [] h tt
