-- ===== src/Bnc/Ident/Reading.antt =====
-- What the session is told of a reply of the ident server.
use cbbncd.Base.{
  ℕ, zero, suc, ◌≡◌, refl, true, false, [], ◌∷◌, ◌++◌, append_assoc, none, some, ◌==◌, replicate,
  ap, ◌∙◌,
}
use cbbncd.Base.Text.{Bytes, codes, Lacks}
use cbbncd.Util.{find_text}
use cbbncd.Bnc.Ident.{is_newline, cut_rest, cut_newlines, behind_colon, skip_spaces, told_of, told}

-- The last byte, if any, is no line end.
abbrev pub EndsPlain : Bytes → Type 0
EndsPlain [] = Unit {0}
EndsPlain (c ∷ []) = is_newline c ≡ false
EndsPlain (c ∷ d ∷ s) = EndsPlain (d ∷ s)

abbrev pub AllNewlines : Bytes → Type 0
AllNewlines [] = Unit {0}
AllNewlines (c ∷ s) = (is_newline c ≡ true) × AllNewlines s

cut_rest-AllNewlines : (s : Bytes) → AllNewlines s → cut_rest s ≡ []
unfolding cut_rest
cut_rest-AllNewlines [] h = refl
cut_rest-AllNewlines (c ∷ s) (e, h) = rw (cut_rest-AllNewlines s h, e) refl

cut_rest-append : (t s : Bytes) → EndsPlain t → AllNewlines s → cut_rest (t ++ s) ≡ t
unfolding cut_rest
cut_rest-append [] s e h = cut_rest-AllNewlines s h
cut_rest-append (c ∷ []) s e h = rw (cut_rest-AllNewlines s h, e) refl
cut_rest-append (c ∷ d ∷ t) s e h = rw (cut_rest-append (d ∷ t) s e h) refl

EndsPlain-append : (h : Bytes) (x : ℕ) (t : Bytes) → EndsPlain (x ∷ t) → EndsPlain (h ++ x ∷ t)
EndsPlain-append [] x t e = e
EndsPlain-append (c ∷ []) x t e = e
EndsPlain-append (c ∷ d ∷ h) x t e = EndsPlain-append (d ∷ h) x t e

pub behind_colon-Lacks : (s : Bytes) → Lacks b':' s → behind_colon s ≡ none
unfolding behind_colon
behind_colon-Lacks [] h = refl
behind_colon-Lacks (c ∷ s) (e, h) = rw (behind_colon-Lacks s h, e) refl

behind_colon-append : (t s : Bytes) → Lacks b':' s → behind_colon (t ++ b':' ∷ s) ≡ some s
unfolding behind_colon
behind_colon-append [] s h = rw (behind_colon-Lacks s h) refl
behind_colon-append (c ∷ t) s h = rw (behind_colon-append t s h) refl

skip_spaces-replicate :
    (k x : ℕ) (s : Bytes) → (x == b' ') ≡ false → skip_spaces (replicate k b' ' ++ x ∷ s) ≡ x ∷ s
unfolding skip_spaces
skip_spaces-replicate zero x s e = rw e refl
skip_spaces-replicate (suc k) x s e = skip_spaces-replicate k x s e

spaces-Lacks : (k : ℕ) (s : Bytes) → Lacks b':' s → Lacks b':' (replicate k b' ' ++ s)
spaces-Lacks zero s h = h
spaces-Lacks (suc k) s h = (refl, spaces-Lacks k s h)

-- From a reply in which USERID stands, the session is told what stands behind the last colon,
-- without the spaces before it and the line ends behind it.
pub told-user :
    (c place k x : ℕ) (head user newlines : Bytes)
    → find_text (codes "USERID") (c ∷ (head ++ b':' ∷ (replicate k b' ' ++ x ∷ user))) 0
      ≡ some place
    → (x == b' ') ≡ false
    → Lacks b':' (x ∷ user)
    → EndsPlain (x ∷ user)
    → AllNewlines newlines
    → told (c ∷ ((head ++ b':' ∷ (replicate k b' ' ++ x ∷ user)) ++ newlines)) ≡ some (x ∷ user)
unfolding told cut_newlines
told-user c place k x head user newlines e s l p n =
    let tail = replicate k b' ' ++ x ∷ user in
    let plain : EndsPlain (head ++ b':' ∷ tail) =
      rw⁻¹ (append_assoc head (b':' ∷ replicate k b' ') (x ∷ user))
        (EndsPlain-append (head ++ b':' ∷ replicate k b' ') x user p) in
    let cut = cut_rest-append (head ++ b':' ∷ tail) newlines plain n in
    let behind = behind_colon-append (c ∷ head) tail (spaces-Lacks k (x ∷ user) l) in
    ap (λ s. told_of (c ∷ s)) cut ∙ rw (told_of, e, behind, skip_spaces-replicate k x user s) refl
