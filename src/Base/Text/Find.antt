-- ===== src/Base/Text/Find.antt =====
-- Where `find`, `substr` and a write at a position meet a text that is given in parts.
use cbbncd.Base.Lists.{length, take, drop, set}
use Prim.Native.Nat.{ℕ, suc, ◌+◌}
use mathlib.Core.Path.{◌≡◌, refl, ap, ◌∙◌}
use mathlib.Core.Option.{none, some}
use mathlib.Core.List.{List, [], ◌∷◌, ◌++◌}
use native.Mathlib.Omega.{arith}
use cbbncd.Base.Text.{Bytes, find_at, find_from, Lacks}

find_at-Lacks : (c i : ℕ) (x y : Bytes) → Lacks c x → find_at c i (x ++ c ∷ y) ≡ some (i + length x)
find_at-Lacks c i [] y h = ground arith
find_at-Lacks c i (a ∷ x) y (e, h) = rw e (find_at-Lacks c (i + 1) x y h ∙ ap some (omega arith))

find_at-none : (c i : ℕ) (x : Bytes) → Lacks c x → find_at c i x ≡ none
find_at-none c i [] h = refl
find_at-none c i (a ∷ x) (e, h) = rw e (find_at-none c (i + 1) x h)

module _ {ℓ} {A : Type ℓ} where
  pub drop-append : (p y : List A) → drop (length p) (p ++ y) ≡ y
  drop-append [] y = refl
  drop-append (a ∷ p) y = drop-append p y

  pub take-append : (p y : List A) → take (length p) (p ++ y) ≡ p
  take-append [] y = refl
  take-append (a ∷ p) y = ap (◌∷◌ a) (take-append p y)

  pub take_past : (k : ℕ) (p y : List A) → take (length p + k) (p ++ y) ≡ p ++ take k y
  take_past k [] y = ap (λ n. take n y) (omega arith)
  take_past k (a ∷ p) y =
      let e : suc (length p) + k ≡ suc (length p + k) = omega arith in
      rw e (ap (◌∷◌ a) (take_past k p y))

  pub set-append : (p y : List A) (a b : A) → set (p ++ a ∷ y) (length p) b ≡ p ++ b ∷ y
  set-append [] y a b = refl
  set-append (x ∷ p) y a b = ap (◌∷◌ x) (set-append p y a b)

  pub drop_at : (n : ℕ) (s p y : List A) → s ≡ p ++ y → n ≡ length p → drop n s ≡ y
  drop_at n s p y e h = rw (e, h) (drop-append p y)

  pub take_at : (n : ℕ) (s p y : List A) → s ≡ p ++ y → n ≡ length p → take n s ≡ p
  take_at n s p y e h = rw (e, h) (take-append p y)

  pub set_at :
      (n : ℕ) (s p y : List A) (a b : A) → s ≡ p ++ a ∷ y → n ≡ length p → set s n b ≡ p ++ b ∷ y
  set_at n s p y a b e h = rw (e, h) (set-append p y a b)

-- The next separator, when a field `x` without one stands behind what was read.
pub find_sep :
    (c n : ℕ) (s p x y : Bytes)
    → s ≡ p ++ (x ++ c ∷ y)
    → n ≡ length p
    → Lacks c x
    → find_from c s n ≡ some (n + length x)
unfolding find_from
find_sep c n s p x y e h l = rw (drop_at n s p (x ++ c ∷ y) e h) (find_at-Lacks c n x y l)

pub find_end :
    (c n : ℕ) (s p x : Bytes) → s ≡ p ++ x → n ≡ length p → Lacks c x → find_from c s n ≡ none
unfolding find_from
find_end c n s p x e h l = rw (drop_at n s p x e h) (find_at-none c n x l)
