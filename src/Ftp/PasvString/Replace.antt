-- ===== src/Ftp/PasvString/Replace.antt =====
-- The loop that replaces one byte by another ends, and replaces every one.
use cbbncd.Base.{
  ℕ, zero, suc, ◌+◌, ◌-◌, ◌<◌, ◌≤◌, ◌≡◌, refl, ap, ◌∙◌, sym, [], ◌∷◌, map, none, some, set, length,
  arith, ◌==◌, if◌then◌else◌, false, Bool-cases, Option-cases, inl, inr,
}
use cbbncd.Base.Text.{Bytes, find_at, find_from}
use cbbncd.Ftp.PasvString.{replace_loop, replace_bytes}

-- Every `from` turned into `to`.
abbrev pub replaced : ℕ → ℕ → Bytes → Bytes
replaced from to = map (λ c. if c == from then to else c)

abbrev count : ℕ → Bytes → ℕ
count c [] = 0
count c (x ∷ s) = (if x == c then 1 else 0) + count c s

count-le-length : (c : ℕ) (s : Bytes) → count c s ≤ length s
count-le-length c [] = omega arith
count-le-length c (x ∷ s) = ground (arith, count-le-length c s)

-- Where the byte is found: one place in the text fewer holds it, and the outcome is as before.
find_at-some :
    (from to i : ℕ) (s : Bytes) {place : ℕ}
    → (from == to) ≡ false
    → find_at from i s ≡ some place
    → (i ≤ place)
      × (count from (set s (place - i) to) + 1 ≡ count from s)
      × (replaced from to (set s (place - i) to) ≡ replaced from to s)
find_at-some from to i [] {place} d e = absurd (ground arith)
find_at-some from to i (x ∷ s) {place} d e = elim (Bool-cases (x == from)) [
  | inl here ↦
      let same : i ≡ place = ground arith in
      let p : place - i ≡ 0 = omega arith in
      let flipped : (to == from) ≡ false = ground arith in
      rw p (omega arith, rw (here, flipped) (omega arith), rw (here, flipped) refl)
  | inr there ↦
      let (le, n, r) = find_at-some from to (i + 1) s d (rw there at e) in
      let p : place - i ≡ suc (place - (i + 1)) = omega arith in
      rw p (omega arith, rw there (ground arith), rw there (ap (◌∷◌ x) r))
]

find_at-none : (from to i : ℕ) (s : Bytes) → find_at from i s ≡ none → replaced from to s ≡ s
find_at-none from to i [] e = refl
find_at-none from to i (x ∷ s) e = elim (Bool-cases (x == from)) [
  | inl here ↦ absurd (ground arith)
  | inr there ↦ rw there (ap (◌∷◌ x) (find_at-none from to (i + 1) s (rw there at e)))
]

replace_loop_lem :
    (fuel from to : ℕ) (s : Bytes)
    → (from == to) ≡ false
    → count from s < fuel
    → replace_loop fuel from to s ≡ some (replaced from to s)
unfolding replace_loop find_from
replace_loop_lem zero from to s d h = absurd (omega arith)
replace_loop_lem (suc fuel) from to s d h = elim (Option-cases (find_at from 0 s)) [
  | inl e ↦ rw (e, replace_loop) (ap some (sym (find_at-none from to 0 s e)))
  | inr (place, e) ↦
      let (le, n, r) = find_at-some from to 0 s d e in
      let z : place - 0 ≡ place = omega arith in
      let n' : count from (set s place to) + 1 ≡ count from s = rw z at n in
      rw (e, replace_loop)
        (replace_loop_lem fuel from to (set s place to) d (omega (arith, n')) ∙ ap some (rw z at r))
]

-- The loop ends with every `from` replaced, for two bytes that differ.
pub replace_bytes_lem :
    (from to : ℕ) (s : Bytes)
    → (from == to) ≡ false
    → replace_bytes from to s ≡ some (replaced from to s)
unfolding replace_bytes
replace_bytes_lem from to s d =
    replace_loop_lem (length s + 1) from to s d (omega (arith, count-le-length from s))
