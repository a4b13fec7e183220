-- ===== src/Bnc/Client/Bracketed.antt =====
-- The places and parts of a response with a text in brackets.
use cbbncd.Base.{
  ℕ, ◌≡◌, refl, ◌+◌, false, [], ◌∷◌, ◌++◌, append_assoc, some, length, length-append, ltb, take,
  drop, arith, ap, sym, ◌∙◌,
}
use cbbncd.Base.Text.{Bytes, Lacks}
use cbbncd.Base.Text.Find.{find_sep, take_at, drop_at}
use cbbncd.Ftp.PasvString.{to_pasv_string, with_port}
use cbbncd.Ftp.PasvString.Replace.{replace_bytes_lem}
use cbbncd.Bnc.Client.Brackets.{text_start, text_end, between}

pub Lacks-append : (c : ℕ) (x y : Bytes) → Lacks c x → Lacks c y → Lacks c (x ++ y)
Lacks-append c [] y h k = k
Lacks-append c (a ∷ x) y (e, h) k = (e, Lacks-append c x y h k)

-- A response with a text in brackets.
abbrev pub bracketed : Bytes → Bytes → Bytes → Bytes
bracketed head text tail = head ++ (b'(' ∷ (text ++ b')' ∷ tail))

-- A head with no bracket and a text with no closing one.
abbrev pub IsBracketed : Bytes → Bytes → Type 0
IsBracketed head text = Lacks b'(' head × Lacks b')' head × Lacks b')' text

module _ (head text tail : Bytes) (h : IsBracketed head text) where
  pub text_start-bracketed : text_start (bracketed head text tail) ≡ length head + 1
  unfolding text_start
  text_start-bracketed =
      let found =
        find_sep b'(' 0 (bracketed head text tail) [] head (text ++ b')' ∷ tail) refl refl h.0 in
      rw (found, text_start) (omega arith)

  pub shape : bracketed head text tail ≡ (head ++ b'(' ∷ text) ++ b')' ∷ tail
  shape = sym (append_assoc head (b'(' ∷ text) (b')' ∷ tail))

  pub text_end-bracketed :
      text_end (bracketed head text tail) ≡ some (length head + 1 + length text)
  text_end-bracketed =
      let lacks = Lacks-append b')' head (b'(' ∷ text) h.1 (refl, h.2) in
      let found =
        find_sep b')' 0 (bracketed head text tail) [] (head ++ b'(' ∷ text) tail shape refl lacks in
      found ∙ ap some (omega (arith, length-append head (b'(' ∷ text)))

  pub before-bracketed : take (length head + 1) (bracketed head text tail) ≡ head ++ b'(' ∷ []
  before-bracketed =
      take_at (length head + 1) (bracketed head text tail) (head ++ b'(' ∷ []) (text ++ b')' ∷ tail)
        (sym (append_assoc head (b'(' ∷ []) (text ++ b')' ∷ tail)))
        (omega (arith, length-append head (b'(' ∷ [])))

  pub after-bracketed :
      drop (length head + 1 + length text) (bracketed head text tail) ≡ b')' ∷ tail
  after-bracketed =
      drop_at (length head + 1 + length text) (bracketed head text tail) (head ++ b'(' ∷ text)
        (b')' ∷ tail) shape (omega (arith, length-append head (b'(' ∷ text)))

  pub inside : drop (length head + 1) (bracketed head text tail) ≡ text ++ b')' ∷ tail
  inside =
      drop_at (length head + 1) (bracketed head text tail) (head ++ b'(' ∷ []) (text ++ b')' ∷ tail)
        (sym (append_assoc head (b'(' ∷ []) (text ++ b')' ∷ tail)))
        (omega (arith, length-append head (b'(' ∷ [])))

  pub between-bracketed :
      between (bracketed head text tail) (length head + 1) (some (length head + 1 + length text))
      ≡ text
  between-bracketed =
      let late : ltb (length head + 1 + length text) (length head + 1) ≡ false = ground arith in
      rw (late, inside) (take_at _ (text ++ b')' ∷ tail) text (b')' ∷ tail) refl (omega arith))

  pub rejoined :
      (new : Bytes) → (head ++ b'(' ∷ []) ++ (new ++ b')' ∷ tail) ≡ bracketed head new tail
  rejoined new = append_assoc head (b'(' ∷ []) (new ++ b')' ∷ tail)

pub to_pasv_string-some :
    (addr : Bytes) (port : ℕ) → (pasv : Bytes) × (to_pasv_string addr port ≡ some pasv)
unfolding to_pasv_string
to_pasv_string-some addr port = (_, ap (with_port port) (replace_bytes_lem b'.' b',' addr refl))
