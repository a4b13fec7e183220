-- ===== src/Ftp/PasvString/RoundTrip.antt =====
-- What the printers write, the parsers read.
use cbbncd.Base.{
  ℕ, suc, ◌+◌, ◌/◌, ◌%◌, ◌^◌, ◌<◌, ◌≡◌, ◌≢◌, refl, ap, ◌∙◌, sym, [], ◌∷◌, ◌++◌, append_assoc,
  append-nil, none, some, length, arith, ◌==◌, Bool, false, ◌||◌, take,
}
use cbbncd.Base.Int.{pos, ◌+ℤ◌, ◌*ℤ◌}
use cbbncd.Base.Text.{Bytes, to_string, stoi, to_int, Lacks, is_digit, is_space}
use cbbncd.Base.Text.Find.{take_past}
use cbbncd.Base.Text.Number.{
  stoi-to_string, stoi-to_string_end, stol-to_string_end, to_string-Lacks,
}
use cbbncd.Types.{AddressFamily, no_family, ipv4, ipv6, ipv4_ipv6}
use cbbncd.Ftp.PasvString.{
  parsed, throws, port_of, from_pasv_string, to_pasv_string, address_family_to_string,
  string_to_address_family, from_extended_pasv_string, to_extended_pasv_string,
}
use cbbncd.Ftp.PasvString.Fields.{from_pasv_string_fields, from_extended_pasv_string_fields}
use cbbncd.Ftp.PasvString.Replace.{replaced, replace_bytes_lem}

-- Four parts joined by dots.
abbrev pub dotted : Bytes → Bytes → Bytes → Bytes → Bytes
dotted a b c d = a ++ (b'.' ∷ (b ++ (b'.' ∷ (c ++ b'.' ∷ d))))

abbrev commas : Bytes → Bytes → Bytes → Bytes → Bytes → Bytes
commas a b c d rest = a ++ (b',' ∷ (b ++ (b',' ∷ (c ++ (b',' ∷ (d ++ rest))))))

-- A part of an address: no dot and no comma.
abbrev pub IsPart : Bytes → Type 0
IsPart a = Lacks b'.' a × Lacks b',' a

replaced-part :
    (a rest : Bytes) → Lacks b'.' a → replaced b'.' b',' (a ++ rest) ≡ a ++ replaced b'.' b',' rest
replaced-part [] rest h = refl
replaced-part (x ∷ a) rest (e, h) = rw e (ap (◌∷◌ x) (replaced-part a rest h))

replaced-end : (a : Bytes) → Lacks b'.' a → replaced b'.' b',' a ≡ a
replaced-end [] h = refl
replaced-end (x ∷ a) (e, h) = rw e (ap (◌∷◌ x) (replaced-end a h))

replaced-dotted :
    (a b c d : Bytes)
    → IsPart a
    → IsPart b
    → IsPart c
    → IsPart d
    → replaced b'.' b',' (dotted a b c d) ≡ commas a b c d []
replaced-dotted a b c d ha hb hc hd = rw (replaced-part a _ ha.0) (
    ap (λ r. a ++ b',' ∷ r)
      (rw (replaced-part b _ hb.0) (
        ap (λ r. b ++ b',' ∷ r)
          (rw (replaced-part c _ hc.0)
            (ap (λ r. c ++ b',' ∷ r) (rw (replaced-end d hd.0) (sym (append-nil d))))))))

to_pasv_string-dotted :
    (a b c d : Bytes) (port : ℕ)
    → IsPart a
    → IsPart b
    → IsPart c
    → IsPart d
    → to_pasv_string (dotted a b c d) port
      ≡ some (commas a b c d (b',' ∷ (to_string (port / 256) ++ (b',' ∷ to_string (port % 256)))))
unfolding to_pasv_string
to_pasv_string-dotted a b c d port ha hb hc hd =
    rw (replace_bytes_lem b'.' b',' (dotted a b c d) refl, replaced-dotted a b c d ha hb hc hd)
      (ap some (simp (append_assoc, append-nil)))

major_text :
    (n : ℕ) (f : Bytes)
    → n < 2 ^ 31
    → stoi (take (length (to_string n) + 2) (to_string n ++ b',' ∷ f)) ≡ some (pos n)
major_text n f h = ap stoi (take_past 2 (to_string n) (b',' ∷ f)) ∙ stoi-to_string n _ h refl

port_of_parts :
    (port : ℕ) → port < 2 ^ 31 → port_of (pos (port / 256)) (pos (port % 256)) ≡ parsed (pos port)
unfolding ◌*ℤ◌ ◌+ℤ◌
port_of_parts port h = ground arith

-- What `toPASVString` writes for a dotted address and a port that `int` holds, `fromPASVString`
-- reads back as the same address and port.
pub from_pasv_string-to_pasv_string :
    (a b c d : Bytes) (port : ℕ)
    → IsPart a
    → IsPart b
    → IsPart c
    → IsPart d
    → port < 2 ^ 31
    → (text : Bytes) × (to_pasv_string (dotted a b c d) port ≡ some text)
      × (from_pasv_string text ≡ parsed (dotted a b c d, pos port))
from_pasv_string-to_pasv_string a b c d port ha hb hc hd h = (
  _,
  to_pasv_string-dotted a b c d port ha hb hc hd,
  from_pasv_string_fields a b c d (to_string (port / 256)) (to_string (port % 256)) ha.1 hb.1 hc.1
        hd.1 (to_string-Lacks b',' (port / 256) refl)
      ∙ rw (
        major_text (port / 256) (to_string (port % 256)) (omega arith),
        stoi-to_string_end (port % 256) (omega arith),
        port_of_parts port h,
      ),
)

to_int_small : (n : ℕ) → n < 2 ^ 31 → to_int (pos n) ≡ pos n
unfolding to_int
to_int_small n h = ground arith

family_text :
    (family : AddressFamily)
    → family ≢ ipv4_ipv6
    → string_to_address_family (address_family_to_string family) ≡ family
family_text no_family h = refl
family_text ipv4 h = refl
family_text ipv6 h = refl
family_text ipv4_ipv6 h = absurd (h refl)

family_Lacks : (family : AddressFamily) → Lacks b'|' (address_family_to_string family)
family_Lacks no_family = tt
family_Lacks ipv4 = (refl, tt)
family_Lacks ipv6 = (refl, tt)
family_Lacks ipv4_ipv6 = (refl, tt)

-- What `toExtendedPASVString` writes for one family or none, an address with no bar and a port
-- that `int` holds, `fromExtendedPASVString` reads back.
pub from_extended_pasv_string-to_extended_pasv_string :
    (family : AddressFamily) (addr : Bytes) (port : ℕ)
    → family ≢ ipv4_ipv6
    → Lacks b'|' addr
    → port < 2 ^ 31
    → from_extended_pasv_string (to_extended_pasv_string family addr port)
      ≡ parsed (family, addr, pos port)
unfolding to_extended_pasv_string
from_extended_pasv_string-to_extended_pasv_string family addr port one bars h =
    from_extended_pasv_string_fields [] (address_family_to_string family) addr (to_string port) []
      tt (family_Lacks family) bars (to_string-Lacks b'|' port refl)
    ∙ rw (stol-to_string_end port (omega arith), family_text family one, to_int_small port h)

-- A byte with which a number, or the white space before it, can begin.
abbrev pub begins_number : ℕ → Bool
begins_number x = is_digit x || (is_space x || (x == b'-' || x == b'+'))

abbrev pub BeginsWith : ℕ → Bytes → Type 0
BeginsWith x [] = ⊥
BeginsWith x (y ∷ s) = y ≡ x

stoi_no_number : (x : ℕ) (s : Bytes) → begins_number x ≡ false → stoi (x ∷ s) ≡ none
unfolding stoi
stoi_no_number x s h = ground arith

no_number :
    (x : ℕ) (e f : Bytes)
    → BeginsWith x (e ++ b',' ∷ f)
    → begins_number x ≡ false
    → stoi (take (length e + 2) (e ++ b',' ∷ f)) ≡ none
no_number x [] f h k = rw h (stoi_no_number x _ k)
no_number x (y ∷ e) f h k =
    let size : suc (length e) + 2 ≡ suc (length e + 2) = omega arith in
    rw (size, h) (stoi_no_number x _ k)

-- A text that has its five commas, and behind the fourth a byte with which no number can begin, makes
-- `std::stoi` throw, and nothing in `fromPASVString` catches that.
pub from_pasv_string_throws :
    (a b c d e f : Bytes)
    → Lacks b',' a
    → Lacks b',' b
    → Lacks b',' c
    → Lacks b',' d
    → Lacks b',' e
    → (x : ℕ) → BeginsWith x (e ++ b',' ∷ f)
    → begins_number x ≡ false
    → from_pasv_string
        (a ++ (b',' ∷ (b ++ (b',' ∷ (c ++ (b',' ∷ (d ++ (b',' ∷ (e ++ b',' ∷ f)))))))))
      ≡ throws
from_pasv_string_throws a b c d e f ha hb hc hd he x h k =
    from_pasv_string_fields a b c d e f ha hb hc hd he ∙ rw (no_number x e f h k)
