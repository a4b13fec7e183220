-- ===== src/Util/Split.antt =====
-- The parts of a text, joined by the separator, are the text.
use cbbncd.Base.{
  ℕ, zero, suc, ◌+◌, ◌-◌, ◌<◌, ◌≤◌, ◌≡◌, refl, ap, ◌∙◌, sym, subst, true, List, [], ◌∷◌, ◌++◌,
  Option, none, some, length, take, drop, length-drop, arith, Bool-cases, Option-cases, inl, inr,
}
use cbbncd.Base.Text.{Bytes, substr}
use cbbncd.Util.{begins, find_text_at, find_text, also, split_loop, split}

abbrev pub join : Bytes → List Bytes → Bytes
join sep [] = []
join sep (part ∷ []) = part
join sep (part ∷ more ∷ parts) = part ++ (sep ++ join sep (more ∷ parts))

begins-take : (sep s : Bytes) → begins sep s ≡ true → s ≡ sep ++ drop (length sep) s
begins-take [] s h = refl
begins-take (c ∷ sep) [] h = cc
begins-take (c ∷ sep) (x ∷ s) h =
    let same : c ≡ x = ground arith in
    let rest : begins sep s ≡ true = ground arith in rw same (ap (◌∷◌ x) (begins-take sep s rest))

begins-length : (sep s : Bytes) → begins sep s ≡ true → length sep ≤ length s
begins-length [] s h = omega arith
begins-length (c ∷ sep) [] h = cc
begins-length (c ∷ sep) (x ∷ s) h =
    let rest : begins sep s ≡ true = ground arith in
    let le = begins-length sep s rest in omega arith

-- Where the separator is found, it stands there.
pub find_text_at-some :
    (sep : Bytes) (i : ℕ) (s : Bytes) {end : ℕ}
    → find_text_at sep i s ≡ some end
    → (i ≤ end)
      × (end + length sep ≤ i + length s)
      × (s ≡ take (end - i) s ++ (sep ++ drop (end - i + length sep) s))
find_text_at-some sep i [] {end} e = elim (Bool-cases (begins sep [])) [
  | inl here ↦
      let same : i ≡ end = ground arith in
      let z : end - i ≡ 0 = omega arith in
      let l : 0 + length sep ≡ length sep = omega arith in
      let fits = begins-length sep [] here in
      (omega arith, omega arith, rw (z, l) (begins-take sep [] here))
  | inr gone ↦ absurd (ground arith)
]
find_text_at-some sep i (x ∷ s) {end} e = elim (Bool-cases (begins sep (x ∷ s))) [
  | inl here ↦
      let same : i ≡ end = ground arith in
      let z : end - i ≡ 0 = omega arith in
      let l : 0 + length sep ≡ length sep = omega arith in
      let fits = begins-length sep (x ∷ s) here in
      (omega arith, omega arith, rw (z, l) (begins-take sep (x ∷ s) here))
  | inr later ↦
      let (le, ge, parts) = find_text_at-some sep (i + 1) s (rw later at e) in
      let p : end - i ≡ suc (end - (i + 1)) = omega arith in
      let q : suc (end - (i + 1)) + length sep ≡ suc (end - (i + 1) + length sep) = omega arith in
      (omega arith, omega arith, rw (p, q) (ap (◌∷◌ x) parts))
]

drop-drop : (m n : ℕ) (s : Bytes) → drop m (drop n s) ≡ drop (n + m) s
drop-drop m zero s = ap (λ k. drop k s) (omega arith)
drop-drop zero (suc n) [] = let e : suc n + 0 ≡ suc (n + 0) = omega arith in rw e refl
drop-drop (suc m) (suc n) [] = let e : suc n + suc m ≡ suc (n + suc m) = omega arith in rw e refl
drop-drop m (suc n) (x ∷ s) =
    let e : suc n + m ≡ suc (n + m) = omega arith in rw e (drop-drop m n s)

-- The loop ends, and its parts give back what it had before it.
abbrev pub Joins : Bytes → Bytes → Option (List Bytes) → Type 0
Joins sep s none = ⊥
Joins sep s (some []) = ⊥
Joins sep s (some (part ∷ parts)) = join sep (part ∷ parts) ≡ s

also-Joins :
    (sep part s : Bytes) (o : Option (List Bytes))
    → Joins sep s o
    → Joins sep (part ++ (sep ++ s)) (also part o)
also-Joins sep part s none j = j
also-Joins sep part s (some []) j = absurd j
also-Joins sep part s (some (p ∷ parts)) j = ap (λ r. part ++ (sep ++ r)) j

split_loop-Joins :
    (fuel : ℕ) (text sep : Bytes) (start : ℕ)
    → 0 < length sep
    → length text < start + fuel
    → start ≤ length text
    → Joins sep (drop start text) (split_loop fuel text sep start)
unfolding split_loop find_text
split_loop-Joins zero text sep start h k l = absurd (omega arith)
split_loop-Joins (suc fuel) text sep start h k l =
    elim (Option-cases (find_text_at sep start (drop start text))) [
      | inl e ↦ rw (e, split_loop) refl
      | inr (end, e) ↦
          let (le, ge, parts) = find_text_at-some sep start (drop start text) e in
          let n = length-drop start text in
          let again =
            split_loop-Joins fuel text sep (end + length sep) h (omega arith) (omega arith) in
          let skip : start + (end - start + length sep) ≡ end + length sep = omega arith in
          let rest : drop (end - start + length sep) (drop start text)
              ≡ drop (end + length sep) text =
            drop-drop (end - start + length sep) start text ∙ ap (λ k. drop k text) skip in
          let also_joins =
            also-Joins sep (substr text start (end - start)) (drop (end + length sep) text) _
              again in
          let whole = parts ∙ ap (λ r. substr text start (end - start) ++ (sep ++ r)) rest in
          let parts_of =
            also (substr text start (end - start)) (split_loop fuel text sep (end + length sep)) in
          rw (e, split_loop) (subst (λ x. Joins sep x parts_of) (sym whole) also_joins)
    ]

-- `split` ends, and the parts that it returns, joined by the separator, are the text.
pub split-Joins : (text sep : Bytes) → 0 < length sep → Joins sep text (split text sep)
unfolding split
split-Joins text sep h = split_loop-Joins (length text + 1) text sep 0 h (omega arith) (omega arith)
