-- ===== src/Base/Text/Last.antt =====
-- The last byte of a text.
use cbbncd.Base.Lists.{length, take, get_or, length-append, length-take}
use Prim.Native.Nat.{ℕ, zero, suc, ◌+◌, ◌-◌, ◌<◌, ◌≤◌}
use mathlib.Core.Path.{◌≡◌, refl, ap, ◌∙◌, sym}
use mathlib.Core.List.{[], ◌∷◌, ◌++◌}
use native.Mathlib.Omega.{arith}
use cbbncd.Base.Text.{Bytes}

abbrev pub last_or : ℕ → Bytes → ℕ
last_or d [] = d
last_or d (x ∷ s) = last_or x s

pub last_or-append : (d : ℕ) (s t : Bytes) → last_or d (s ++ t) ≡ last_or (last_or d s) t
last_or-append d [] t = refl
last_or-append d (x ∷ s) t = last_or-append x s t

get_or-last : (d x : ℕ) (s : Bytes) → get_or (x ∷ s) (length s) d ≡ last_or x s
get_or-last d x [] = refl
get_or-last d x (y ∷ s) = get_or-last d y s

pub get_or-take : (n i d : ℕ) (s : Bytes) → i < n → get_or (take n s) i d ≡ get_or s i d
get_or-take zero i d s h = absurd (omega arith)
get_or-take (suc n) i d [] h = refl
get_or-take (suc n) zero d (x ∷ s) h = refl
get_or-take (suc n) (suc i) d (x ∷ s) h = get_or-take n i d s (omega arith)

get_or_end : (d x : ℕ) (t u : Bytes) → get_or (t ++ x ∷ u) (length t + length u) d ≡ last_or x u
get_or_end d x [] u = let e : 0 + length u ≡ length u = omega arith in rw e (get_or-last d x u)
get_or_end d x (y ∷ t) u =
    let e : suc (length t) + length u ≡ suc (length t + length u) = omega arith in
    rw e (get_or_end d x t u)

-- The byte before position `n` is the last one of the text up to `n`.
pub last_stored :
    (n : ℕ) (s t : Bytes) (x : ℕ) (u : Bytes)
    → take n s ≡ t ++ x ∷ u
    → n ≤ length s
    → get_or s (n - 1) 0 ≡ last_or x u
last_stored n s t x u e h =
    let size : length (take n s) ≡ length t + suc (length u) =
      ap length e ∙ length-append t (x ∷ u) in
    let n_size : n ≡ length t + suc (length u) = omega (arith, size, length-take n s) in
    let place : n - 1 ≡ length t + length u = omega arith in
    sym (get_or-take n (n - 1) 0 s (omega arith))
    ∙ ap (λ l. get_or l (n - 1) 0) e
    ∙ ap (λ i. get_or (t ++ x ∷ u) i 0) place
    ∙ get_or_end 0 x t u
