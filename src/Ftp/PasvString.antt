-- ===== src/Ftp/PasvString.antt =====
-- ftp/pasvstring.h and ftp/pasvstring.cpp: the address texts of PASV, PORT, EPSV and EPRT.
-- A port that is printed is not negative. What a call leaves in its out parameters before it
-- returns false is not modelled: no caller reads it.
pub mod Fields
pub mod Replace
pub mod RoundTrip
use cbbncd.Base.{
  ℕ, zero, suc, ◌+◌, ◌-◌, ◌/◌, ◌%◌, Bool, true, false, ◌==◌, if◌then◌else◌, List, [], ◌∷◌, ◌++◌,
  Option, none, some, set, take, drop, length,
}
use cbbncd.Base.Int.{ℤ, pos, ◌+ℤ◌, ◌*ℤ◌}
use cbbncd.Base.Text.{Bytes, codes, same, find_from, substr, to_string, stoi, stol, to_int, fits}
use cbbncd.Types.{AddressFamily, no_family, ipv4, ipv6, ipv4_ipv6}

abbrev pub address_family_to_string : AddressFamily → Bytes
address_family_to_string no_family = []
address_family_to_string ipv4 = codes "1"
address_family_to_string ipv6 = codes "2"
address_family_to_string ipv4_ipv6 = codes "?"

abbrev pub string_to_address_family : Bytes → AddressFamily
string_to_address_family str =
    if same str (codes "1") then ipv4 else if same str (codes "2") then ipv6 else no_family

-- How a call ends: it returns true, it returns false, a number throws, or `int` overflows.
pub data Parsed {ℓ} (A : Type ℓ) : Type ℓ where
  parsed : A → Parsed A
  refused : Parsed A
  throws : Parsed A
  overflows : Parsed A

infixl 5 ◌>>=◌
abbrev pub ◌>>=◌ {ℓ κ} : {A : Type ℓ} {B : Type κ} → Parsed A → (A → Parsed B) → Parsed B
parsed a >>= f = f a
refused >>= f = refused
throws >>= f = throws
overflows >>= f = overflows

-- `if (sep == npos) return false`.
abbrev pub or_refuse {ℓ} : {A : Type ℓ} → Option A → Parsed A
or_refuse none = refused
or_refuse (some a) = parsed a

abbrev pub or_throw {ℓ} : {A : Type ℓ} → Option A → Parsed A
or_throw none = throws
or_throw (some a) = parsed a

abbrev pub in_int : ℤ → Parsed ℤ
in_int z = if fits 31 z then parsed z else overflows

-- `port = major * 256 + minor`, in `int`.
abbrev pub port_of : ℤ → ℤ → Parsed ℤ
port_of major minor = do high ← in_int (major *ℤ pos 256); in_int (high +ℤ minor)

unfoldable pub from_pasv_string : Bytes → Parsed (Bytes × ℤ)
from_pasv_string pasv = do
  sep1 ← or_refuse (find_from b',' pasv 0)
  sep2 ← or_refuse (find_from b',' pasv (sep1 + 1))
  sep3 ← or_refuse (find_from b',' pasv (sep2 + 1))
  sep4 ← or_refuse (find_from b',' pasv (sep3 + 1))
  sep5 ← or_refuse (find_from b',' pasv (sep4 + 1))
  let addr = take sep4 (set (set (set pasv sep1 b'.') sep2 b'.') sep3 b'.')
  major ← or_throw (stoi (substr pasv (sep4 + 1) (sep5 - sep4 + 1)))
  minor ← or_throw (stoi (drop (sep5 + 1) pasv))
  port ← port_of major minor
  parsed (addr, port)

-- `while ((pos = s.find(from)) != npos) s[pos] = to`; `none` is a loop cut off by its fuel.
pub replace_loop : ℕ → ℕ → ℕ → Bytes → Option Bytes
replace_loop zero from to s = none
replace_loop (suc fuel) from to s = elim (find_from from s 0) [
  | none ↦ some s
  | some place ↦ replace_loop fuel from to (set s place to)
]

-- The loop with fuel for every byte of the text.
unfoldable pub replace_bytes : ℕ → ℕ → Bytes → Option Bytes
unfolding replace_loop
replace_bytes from to s = replace_loop (length s + 1) from to s

abbrev pub with_port : ℕ → Option Bytes → Option Bytes
with_port port none = none
with_port port (some pasv) =
    some (pasv ++ (b',' ∷ (to_string (port / 256) ++ (b',' ∷ to_string (port % 256)))))

unfoldable pub to_pasv_string : Bytes → ℕ → Option Bytes
to_pasv_string addr port = with_port port (replace_bytes b'.' b',' addr)

unfoldable pub from_extended_pasv_string : Bytes → Parsed (AddressFamily × Bytes × ℤ)
from_extended_pasv_string epsv = do
  sep1 ← or_refuse (find_from b'|' epsv 0)
  sep2 ← or_refuse (find_from b'|' epsv (sep1 + 1))
  sep3 ← or_refuse (find_from b'|' epsv (sep2 + 1))
  sep4 ← or_refuse (find_from b'|' epsv (sep3 + 1))
  let addrfam = string_to_address_family (substr epsv (sep1 + 1) (sep2 - sep1 - 1))
  let addr = substr epsv (sep2 + 1) (sep3 - sep2 - 1)
  port ← or_throw (stol (substr epsv (sep3 + 1) (sep4 - sep3 - 1)))
  parsed (addrfam, addr, to_int port)

unfoldable pub to_extended_pasv_string : AddressFamily → Bytes → ℕ → Bytes
to_extended_pasv_string addrfam addr port =
    b'|'
    ∷ (address_family_to_string addrfam
        ++ (b'|' ∷ (addr ++ (b'|' ∷ (to_string port ++ b'|' ∷ [])))))

-- The form with no address.
unfoldable pub to_extended_pasv_string_port : ℕ → Bytes
unfolding to_extended_pasv_string
to_extended_pasv_string_port port = to_extended_pasv_string no_family [] port
