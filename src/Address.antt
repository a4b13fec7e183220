-- ===== src/Address.antt =====
-- address.h and address.cpp: the addresses of the command line.
pub mod RoundTrip
pub mod Parting
use cbbncd.Base.{
  ℕ, zero, suc, ◌+◌, ◌-◌, ◌%◌, ◌^◌, Bool, true, false, not, ◌&&◌, ◌||◌, List, [], ◌∷◌, ◌++◌, Option,
  none, some, ltb, leb, ◌==◌, if◌then◌else◌, length, take, drop, map,
}
use cbbncd.Base.Int.{ℤ, pos, negsuc}
use cbbncd.Base.Text.{Bytes, codes, same, find_from, substr, is_digit, to_string, stoi}
use cbbncd.Types.{AddressFamily, ipv4, ipv6, ipv4_ipv6, is_ipv4, is_ipv6}
use cbbncd.Util.{find_text, split, trim}
use cbbncd.Ftp.PasvString.{replace_bytes}

pub record Address : Type 0 where
  pub addrfam : AddressFamily
  pub brackets : Bool
  pub host : Bytes
  pub port : ℕ

-- `toString(includeaddrfam)`.
unfoldable pub to_text : Bool → Address → Bytes
to_text includeaddrfam a =
    (if includeaddrfam && is_ipv4 a.addrfam
      then codes "(4)"
      else if includeaddrfam && is_ipv6 a.addrfam
      then codes "(6)"
      else [])
    ++ ((if a.brackets then b'[' ∷ (a.host ++ b']' ∷ []) else a.host)
        ++ (if a.port == 21 then [] else b':' ∷ to_string a.port))

-- The family that is written in front, and the text behind it.
unfoldable pub family_prefix : Bytes → AddressFamily × Bytes
family_prefix address =
    if ltb 3 (length address) && same (take 3 address) (codes "(4)")
    then (ipv4, drop 3 address)
    else if ltb 3 (length address) && same (take 3 address) (codes "(6)")
    then (ipv6, drop 3 address)
    else (ipv4_ipv6, address)

-- The loop over the bytes, with `colons` and `canbeipv4`.
unfoldable pub scan_bytes : ℕ → Bool → Bytes → ℕ × Bool
scan_bytes colons canbeipv4 [] = (colons, canbeipv4)
scan_bytes colons canbeipv4 (c ∷ s) =
    let seen = if c == b':' then colons + 1 else colons in
    let may = canbeipv4 && not (c == b':' && leb 2 seen) in
    scan_bytes seen (may && (is_digit c || (c == b'.' || c == b':'))) s

-- A text that begins with `0x` is read behind it.
abbrev pub behind_hex : Bytes → Bytes
behind_hex [] = []
behind_hex (c ∷ []) = c ∷ []
behind_hex (c ∷ d ∷ s) = if c == b'0' && d == b'x' then s else c ∷ d ∷ s

unfoldable pub guessed_family : Bytes → AddressFamily
unfolding scan_bytes
guessed_family address =
    let (colons, canbeipv4) = scan_bytes 0 true (behind_hex address) in
    if leb 2 colons then ipv6 else if canbeipv4 then ipv4 else ipv4_ipv6

abbrev pub known_family : AddressFamily → Bytes → AddressFamily
known_family ipv4_ipv6 address = guessed_family address
known_family addrfam address = addrfam

-- The brackets, the host and `portpos`, where no brackets are used.
unfoldable pub plain_host : AddressFamily → Bytes → Bool × Bytes × Option ℕ
plain_host addrfam address =
    let portpos = if is_ipv6 addrfam then none else find_from b':' address 0 in
    (false, elim portpos [ none ↦ address | some place ↦ take place address ], portpos)

-- With an opening bracket in front, on where the closing one stands.
unfoldable pub bracket_host : AddressFamily → Bytes → Option ℕ → Bool × Bytes × Option ℕ
unfolding plain_host
bracket_host addrfam address none = plain_host addrfam address
bracket_host addrfam address (some end) =
    (true, substr address 1 (end - 1), find_from b':' address end)

unfoldable pub host_part : AddressFamily → Bytes → Bool × Bytes × Option ℕ
unfolding plain_host bracket_host
host_part addrfam [] = plain_host addrfam []
host_part addrfam (c ∷ s) =
    if c == b'['
    then bracket_host addrfam (c ∷ s) (find_from b']' (c ∷ s) 0)
    else plain_host addrfam (c ∷ s)

-- `int` to `unsigned short`.
abbrev pub to_short : ℤ → ℕ
to_short (pos n) = n % 2 ^ 16
to_short (negsuc n) = 2 ^ 16 - 1 - n % 2 ^ 16

-- The port, which stays 21 where `std::stoi` throws.
abbrev pub port_or_default : Option ℤ → ℕ
port_or_default none = 21
port_or_default (some z) = to_short z

abbrev pub port_at : Bytes → Option ℕ → ℕ
port_at address none = 21
port_at address (some place) = port_or_default (stoi (drop (place + 1) address))

abbrev pub address_of : AddressFamily → Bytes → Bool × Bytes × Option ℕ → Address
address_of addrfam address (brackets, host, portpos) =
    let port = port_at address portpos in
    record {
      addrfam = addrfam;
      brackets = if port == 21 then false else brackets;
      host = host;
      port = port;
    }

unfoldable pub parse_address : Bytes → Address
unfolding family_prefix host_part
parse_address text =
    let (written, address) = family_prefix text in
    let addrfam = known_family written address in
    address_of addrfam address (host_part addrfam address)

-- The loop that leaves one of several spaces; `none` is a loop cut off by its fuel.
unfoldable pub squeeze : ℕ → Bytes → Option Bytes
squeeze zero s = none
squeeze (suc fuel) s = elim (find_text (codes "  ") s 0) [
  | none ↦ some s
  | some place ↦ squeeze fuel (take place s ++ drop (place + 1) s)
]

infixl 5 ◌>>=◌
abbrev ◌>>=◌ {ℓ κ} : {A : Type ℓ} {B : Type κ} → Option A → (A → Option B) → Option B
none >>= f = none
some a >>= f = f a

unfoldable pub parse_addresses : Bytes → Option (List Address)
unfolding squeeze parse_address
parse_addresses addrstr = do
  no_semicolons ← replace_bytes b';' b' ' addrstr
  no_commas ← replace_bytes b',' b' ' no_semicolons
  squeezed ← squeeze (length no_commas + 1) no_commas
  parts ← split squeezed (codes " ")
  some (map parse_address (trim parts))
