-- ===== src/Base/Text.antt =====
-- `std::string` as the list of its bytes, with `find`, `substr`, `std::to_string`, `std::stoi` and
-- `std::stol` of the C++ library.
pub mod Find
pub mod Number
pub mod Last
use Prim.Native.Char.{code}
use Prim.Native.String.{String}
use cbbncd.Base.Int.{ℤ, pos, negsuc}
use cbbncd.Base.Tests.{ltb, leb, ◌==◌, if◌then◌else◌, Bool-cases}
use cbbncd.Base.Lists.{length, take, drop}
use Prim.Native.Nat.{ℕ, zero, suc, ◌+◌, ◌-◌, ◌*◌, ◌/◌, ◌%◌, ◌<◌, ◌≤◌, ◌^◌}
use mathlib.Core.Path.{◌≡◌, refl, ap, ◌∙◌, sym}
use mathlib.Core.Logic.{inl, inr}
use mathlib.Core.Bool.{Bool, true, false, ◌&&◌, ◌||◌}
use mathlib.Core.Option.{Option, none, some}
use mathlib.Core.List.{List, [], ◌∷◌, ◌++◌, append_assoc}
use native.Mathlib.Omega.{arith}

abbrev pub Bytes : Type 0
Bytes = List ℕ

-- The bytes of a literal, all of them ASCII.
abbrev pub codes : String → Bytes
codes String.[] = []
codes (String.◌∷◌ c s) = code c ∷ codes s

-- Two texts are equal.
abbrev pub same : Bytes → Bytes → Bool
same [] [] = true
same [] (y ∷ ys) = false
same (x ∷ xs) [] = false
same (x ∷ xs) (y ∷ ys) = x == y && same xs ys

-- The first place of a byte, counted from `i`.
abbrev pub find_at : ℕ → ℕ → Bytes → Option ℕ
find_at c i [] = none
find_at c i (x ∷ xs) = if x == c then some i else find_at c (i + 1) xs

-- `s.find(c, start)`; `npos` is `none`.
unfoldable pub find_from : ℕ → Bytes → ℕ → Option ℕ
find_from c s start = find_at c start (drop start s)

-- `s.substr(start, count)`, for a start within the text.
abbrev pub substr : Bytes → ℕ → ℕ → Bytes
substr s start count = take count (drop start s)

abbrev pub is_digit : ℕ → Bool
is_digit c = leb b'0' c && leb c b'9'

-- The decimal digits of a number, given more rounds than its value.
unfoldable pub print : ℕ → ℕ → Bytes
print zero n = []
print (suc fuel) n =
    let high = print fuel (n / 10) in
    if ltb n 10 then (b'0' + n) ∷ [] else high ++ (b'0' + n % 10) ∷ []

-- `std::to_string` of a number that is not negative.
unfoldable pub to_string : ℕ → Bytes
unfolding print
to_string n = print (suc n) n

abbrev pub is_space : ℕ → Bool
is_space c = c == 32 || (leb 9 c && leb c 13)

unfoldable pub skip_space : Bytes → Bytes
skip_space [] = []
skip_space (c ∷ s) = if is_space c then skip_space s else c ∷ s

unfoldable pub digits_value : ℕ → Bytes → ℕ
digits_value acc [] = acc
digits_value acc (c ∷ s) = if is_digit c then digits_value (acc * 10 + (c - b'0')) s else acc

unfoldable pub parse_digits : Bytes → Option ℕ
unfolding digits_value
parse_digits [] = none
parse_digits (c ∷ s) = if is_digit c then some (digits_value 0 (c ∷ s)) else none

abbrev pub negate : ℕ → ℤ
negate zero = pos 0
negate (suc n) = negsuc n

abbrev pub map_negate : Option ℕ → Option ℤ
map_negate none = none
map_negate (some n) = some (negate n)

abbrev pub map_pos : Option ℕ → Option ℤ
map_pos none = none
map_pos (some n) = some (pos n)

-- A sign and digits; `none` where no digit stands.
unfoldable pub parse_signed : Bytes → Option ℤ
unfolding parse_digits
parse_signed [] = none
parse_signed (c ∷ s) =
    if c == b'-'
    then map_negate (parse_digits s)
    else if c == b'+'
    then map_pos (parse_digits s)
    else map_pos (parse_digits (c ∷ s))

-- A signed number of `bits + 1` bits.
abbrev pub fits : ℕ → ℤ → Bool
fits bits (pos n) = ltb n (2 ^ bits)
fits bits (negsuc n) = ltb n (2 ^ bits)

abbrev pub within : ℕ → Option ℤ → Option ℤ
within bits none = none
within bits (some z) = if fits bits z then some z else none

-- `std::stoi` and `std::stol` on 64-bit Unix; a throw, for want of digits or out of range, is `none`.
unfoldable pub stoi : Bytes → Option ℤ
unfolding skip_space parse_signed
stoi s = within 31 (parse_signed (skip_space s))

unfoldable pub stol : Bytes → Option ℤ
unfolding skip_space parse_signed
stol s = within 63 (parse_signed (skip_space s))

-- `long` to `int`.
abbrev pub wrap_nat : ℕ → ℤ
wrap_nat n = if ltb n (2 ^ 31) then pos n else negsuc (2 ^ 32 - 1 - n)

unfoldable pub to_int : ℤ → ℤ
to_int (pos n) = wrap_nat (n % 2 ^ 32)
to_int (negsuc n) = wrap_nat (2 ^ 32 - 1 - n % 2 ^ 32)

-- The byte does not stand in the text.
abbrev pub Lacks : ℕ → Bytes → Type 0
Lacks c [] = Unit {0}
Lacks c (x ∷ xs) = ((x == c) ≡ false) × Lacks c xs
