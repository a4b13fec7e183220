-- ===== src/Ftp/ResponseParser/StatusLine.antt =====
-- What a status line, the stray 550 line and junk are to the response parser, by their bytes.
use cbbncd.Base.{
  ℕ, ◌+◌, ◌-◌, ◌*◌, ◌<◌, ◌≤◌, ◌≡◌, refl, sym, ap, ◌∙◌, Bool, true, false, not, ◌&&◌, ◌||◌, leb,
  ◌==◌, ==_iff, arith, ◌⊎◌, inl, inr,
}
use cbbncd.Base.Text.{is_digit}
use cbbncd.Ftp.Buffer.{Buffer}
use cbbncd.Ftp.ResponseParser.{byte, is_status, code_at, is_user_file, is_junk}

-- Three digits stand at a place, and are those of the code.
abbrev pub HasDigits : Buffer → ℕ → ℕ → Type 0
HasDigits b loc code =
    (x : ℕ) × (y : ℕ) × (z : ℕ) × (x < 10)
    × (y < 10)
    × (z < 10)
    × (byte b loc ≡ 48 + x)
    × (byte b (loc + 1) ≡ 48 + y)
    × (byte b (loc + 2) ≡ 48 + z)
    × (code ≡ x * 100 + y * 10 + z)

-- A status line begins there: at the start of a line, with the digits of its code and then a space
-- or the line end.
abbrev pub IsStatus : Buffer → ℕ → ℕ → Type 0
IsStatus b loc code =
    HasDigits b loc code
    × ((byte b (loc + 3) ≡ b' ') ⊎ (byte b (loc + 3) ≡ b'\n'))
    × ((loc ≡ 0) ⊎ (byte b (loc - 1) ≡ b'\n'))

three : (x y z : Bool) → (x && y && z) ≡ true → (x ≡ true) × (y ≡ true) × (z ≡ true)
three true true z h = (refl, refl, h)
three true false z h = cc
three false y z h = cc

both : (x y : Bool) → (x && y) ≡ true → (x ≡ true) × (y ≡ true)
both true y h = (refl, h)
both false y h = cc

either : (x y : Bool) → (x || y) ≡ true → (x ≡ true) ⊎ (y ≡ true)
either true y h = inl refl
either false y h = inr h

all_three : {x y z : Bool} → x ≡ true → y ≡ true → z ≡ true → (x && y && z) ≡ true
all_three e f g = rw (e, f, g) refl

or_left : (x y : Bool) → x ≡ true → (x || y) ≡ true
or_left x y e = rw e refl

or_right : (x y : Bool) → y ≡ true → (x || y) ≡ true
or_right true y e = refl
or_right false y e = e

digit_of : (c : ℕ) → is_digit c ≡ true → (c - 48 < 10) × (c ≡ 48 + (c - 48))
digit_of c h = (ground (arith, h), ground (arith, h))

is_digit_back : (c x : ℕ) → x < 10 → c ≡ 48 + x → is_digit c ≡ true
is_digit_back c x h e = ground (arith, h, e)

minus : (c x : ℕ) → c ≡ 48 + x → c - 48 ≡ x
minus c x e = omega (arith, e)

are_digits : Buffer → ℕ → Bool
are_digits b loc =
    is_digit (byte b loc) && is_digit (byte b (loc + 1)) && is_digit (byte b (loc + 2))

are_digits-HasDigits :
    (b : Buffer) (loc : ℕ) → are_digits b loc ≡ true → HasDigits b loc (code_at b loc)
unfolding are_digits
are_digits-HasDigits b loc h =
    let (x, y, z) = three _ _ _ h in
    let (x1, x2) = digit_of (byte b loc) x in
    let (y1, y2) = digit_of (byte b (loc + 1)) y in
    let (z1, z2) = digit_of (byte b (loc + 2)) z in (_, _, _, x1, y1, z1, x2, y2, z2, refl)

are_digits_back :
    (b : Buffer) (loc code : ℕ)
    → HasDigits b loc code
    → (are_digits b loc ≡ true) × (code ≡ code_at b loc)
unfolding are_digits
are_digits_back b loc code (x, y, z, x1, y1, z1, x2, y2, z2, e) = (
  all_three (is_digit_back _ x x1 x2) (is_digit_back _ y y1 y2) (is_digit_back _ z z1 z2),
  omega (arith, e, minus _ x x2, minus _ y y2, minus _ z z2),
)

pub is_status-IsStatus :
    (b : Buffer) (loc : ℕ) → is_status b loc ≡ true → IsStatus b loc (code_at b loc)
unfolding is_status are_digits
is_status-IsStatus b loc h =
    let (digits, rest) = both (are_digits b loc) _ h in
    let (behind, before) = both _ _ rest in
    (
      are_digits-HasDigits b loc digits,
      elim (either _ _ behind) [ inl e ↦ inl ((==_iff _ _).0 e) | inr e ↦ inr ((==_iff _ _).0 e) ],
      elim (either _ _ before) [ inl e ↦ inl ((==_iff _ _).0 e) | inr e ↦ inr ((==_iff _ _).0 e) ],
    )

pub is_status_back :
    (b : Buffer) (loc code : ℕ)
    → IsStatus b loc code
    → (is_status b loc ≡ true) × (code ≡ code_at b loc)
unfolding is_status are_digits
is_status_back b loc code (digits, behind, before) =
    let (d, e) = are_digits_back b loc code digits in
    let x : (byte b (loc + 3) == b' ' || byte b (loc + 3) == b'\n') ≡ true = elim behind [
      | inl p ↦ or_left _ _ ((==_iff _ _).1 p)
      | inr p ↦ or_right _ _ ((==_iff _ _).1 p)
    ] in
    let y : (loc == 0 || byte b (loc - 1) == b'\n') ≡ true = elim before [
      | inl p ↦ or_left _ _ ((==_iff _ _).1 p)
      | inr p ↦ or_right _ _ ((==_iff _ _).1 p)
    ] in
    (rw (d, x, y) refl, e)

-- "Unable to load your own user file!", by four of its letters.
abbrev pub IsUserFile : Buffer → ℕ → Type 0
IsUserFile b loc =
    (byte b (loc + 4) ≡ b'U')
    × (byte b (loc + 5) ≡ b'n')
    × (byte b (loc + 28) ≡ b'u')
    × (byte b (loc + 33) ≡ b'f')

-- The stray 550 line.
abbrev pub IsStray : Buffer → ℕ → ℕ → Type 0
IsStray b loc code = (code ≡ 550) × IsUserFile b loc

-- The chunk of `size` bytes is all there is, and does not begin with three digits.
abbrev pub IsJunk : Buffer → ℕ → Type 0
IsJunk b size = (size ≡ b.databufpos) × (3 ≤ size) × ((code : ℕ) → HasDigits b 0 code → ⊥)

pub is_user_file_iff :
    (b : Buffer) (loc : ℕ)
    → (is_user_file b loc ≡ true → IsUserFile b loc)
      × (IsUserFile b loc → is_user_file b loc ≡ true)
is_user_file_iff b loc = (
  λ h.
      let (h1, t) =
        both (byte b (loc + 4) == b'U' && byte b (loc + 5) == b'n' && byte b (loc + 28) == b'u')
          (byte b (loc + 33) == b'f') h in
      let (x, y, z) = three _ _ _ h1 in
      ((==_iff _ _).0 x, (==_iff _ _).0 y, (==_iff _ _).0 z, (==_iff _ _).0 t),
  λ (x, y, z, t). rw ((==_iff _ _).1 x, (==_iff _ _).1 y, (==_iff _ _).1 z, (==_iff _ _).1 t) refl,
)

some_not : (x y z : Bool) → (not x || not y || not z) ≡ not (x && y && z)
some_not true true z = refl
some_not true false z = refl
some_not false y z = refl

is_junk_alt :
    (b : Buffer) (size : ℕ)
    → is_junk b size ≡ (size == b.databufpos && (leb 3 size && not (are_digits b 0)))
unfolding are_digits
is_junk_alt b size = ap (λ t. size == b.databufpos && (leb 3 size && t)) (some_not _ _ _)

contrary : (x : Bool) → not x ≡ true → x ≡ true → ⊥
contrary true h k = cc
contrary false h k = cc

not_of : (x : Bool) → (x ≡ true → ⊥) → not x ≡ true
not_of true h = absurd (h refl)
not_of false h = refl

pub is_junk-IsJunk : (b : Buffer) (size : ℕ) → is_junk b size ≡ true → IsJunk b size
is_junk-IsJunk b size h =
    let (same, rest) = both _ _ (sym (is_junk_alt b size) ∙ h) in
    let (long, none_there) = both (leb 3 size) (not (are_digits b 0)) rest in
    (
      (==_iff _ _).0 same,
      ground (arith, long),
      λ code d. contrary _ none_there (are_digits_back b 0 code d).0,
    )

pub is_junk_back : (b : Buffer) (size : ℕ) → IsJunk b size → is_junk b size ≡ true
is_junk_back b size (same, long, none_there) =
    let x : leb 3 size ≡ true = ground (arith, long) in
    let y : not (are_digits b 0) ≡ true =
      not_of _ (λ h. none_there _ (are_digits-HasDigits b 0 h)) in
    is_junk_alt b size ∙ rw ((==_iff _ _).1 same, x, y) refl
