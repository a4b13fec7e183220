-- ===== src/Address/RoundTrip.antt =====
-- An address that is printed is read back.
use cbbncd.Base.{
  ℕ, suc, ◌+◌, ◌-◌, ◌^◌, ◌<◌, ◌≡◌, refl, true, false, [], ◌∷◌, ◌++◌, append_assoc, append-nil, ltb,
  ◌==◌, if◌then◌else◌, length, length-append, take, drop, arith, Bool-cases, inl, inr, ap, sym, ◌∙◌,
}
use cbbncd.Base.Text.{Bytes, find_from, to_string, stoi, Lacks}
use cbbncd.Base.Text.Find.{find_sep, find_end, take_at, drop_at}
use cbbncd.Base.Text.Number.{stoi-to_string_end}
use cbbncd.Types.{AddressFamily, ipv4, ipv6}
use cbbncd.Address.{
  Address, to_text, plain_host, bracket_host, host_part, port_or_default, address_of, parse_address,
}

-- What is printed behind the host.
abbrev port_text : ℕ → Bytes
port_text port = if port == 21 then [] else b':' ∷ to_string port

port_read : (port : ℕ) → port < 2 ^ 16 → port_or_default (stoi (to_string port)) ≡ port
port_read port h = rw (stoi-to_string_end port (omega arith)) (omega arith)

-- The first byte is no opening bracket.
abbrev pub NoBracket : Bytes → Type 0
NoBracket [] = Unit {0}
NoBracket (c ∷ s) = (c == b'[') ≡ false

host_part-NoBracket :
    (addrfam : AddressFamily) (s : Bytes) → NoBracket s → host_part addrfam s ≡ plain_host addrfam s
unfolding host_part
host_part-NoBracket addrfam [] h = refl
host_part-NoBracket addrfam (c ∷ s) h = rw (h, host_part) refl

read_default :
    (host : Bytes)
    → Lacks b':' host
    → address_of ipv4 host (plain_host ipv4 host)
      ≡ record { addrfam = ipv4; brackets = false; host = host; port = 21 }
unfolding plain_host
read_default host l = rw (find_end b':' 0 host [] host refl refl l, plain_host) refl

read_written :
    (host : Bytes) (port : ℕ)
    → Lacks b':' host
    → port < 2 ^ 16
    → let text = host ++ b':' ∷ to_string port in
      address_of ipv4 text (plain_host ipv4 text)
      ≡ record { addrfam = ipv4; brackets = false; host = host; port = port }
unfolding plain_host
read_written host port l h =
    let text = host ++ b':' ∷ to_string port in
    let found = find_sep b':' 0 text [] host (to_string port) refl refl l in
    let front = take_at (0 + length host) text host (b':' ∷ to_string port) refl (omega arith) in
    let rest =
      drop_at (0 + length host + 1) text (host ++ b':' ∷ []) (to_string port)
        (sym (append_assoc host (b':' ∷ []) (to_string port)))
        (omega (arith, length-append host (b':' ∷ []))) in
    let same_brackets : (if port == 21 then false else false) ≡ false = ground arith in
    rw (found, plain_host, front, rest, port_read port h, same_brackets) refl

read_plain :
    (host : Bytes) (port : ℕ)
    → Lacks b':' host
    → port < 2 ^ 16
    → address_of ipv4 (host ++ port_text port) (plain_host ipv4 (host ++ port_text port))
      ≡ record { addrfam = ipv4; brackets = false; host = host; port = port }
read_plain host port l h = elim (Bool-cases (port == 21)) [
  | inl e ↦ let p : port ≡ 21 = ground arith in rw (e, append-nil host, p) (read_default host l)
  | inr e ↦ rw e (read_written host port l h)
]

read_brackets :
    (host : Bytes) (port : ℕ)
    → Lacks b']' host
    → (port == 21) ≡ false
    → port < 2 ^ 16
    → let text = b'[' ∷ ((host ++ b']' ∷ []) ++ b':' ∷ to_string port) in
      address_of ipv6 text (bracket_host ipv6 text (find_from b']' text 0))
      ≡ record { addrfam = ipv6; brackets = true; host = host; port = port }
unfolding bracket_host
read_brackets host port l e h =
    let text = b'[' ∷ ((host ++ b']' ∷ []) ++ b':' ∷ to_string port) in
    let shape : text ≡ (b'[' ∷ host) ++ b']' ∷ (b':' ∷ to_string port) =
      ap (◌∷◌ b'[') (append_assoc host (b']' ∷ []) (b':' ∷ to_string port)) in
    let closing =
      find_sep b']' 0 text [] (b'[' ∷ host) (b':' ∷ to_string port) shape refl (refl, l) in
    let colon =
      find_sep b':' (0 + suc (length host)) text (b'[' ∷ host) (b']' ∷ []) (to_string port) shape
        (omega arith) (refl, tt) in
    let count : 0 + suc (length host) - 1 ≡ length host = omega arith in
    let inside : take (length host) ((host ++ b']' ∷ []) ++ b':' ∷ to_string port) ≡ host =
      take_at (length host) _ host (b']' ∷ (b':' ∷ to_string port))
        (append_assoc host (b']' ∷ []) (b':' ∷ to_string port)) refl in
    let rest : drop (0 + suc (length host) + 1 + 1) text ≡ to_string port =
      drop_at (0 + suc (length host) + 1 + 1) text (b'[' ∷ (host ++ b']' ∷ b':' ∷ []))
        (to_string port)
        (shape ∙ ap (◌∷◌ b'[') (sym (append_assoc host (b']' ∷ b':' ∷ []) (to_string port))))
        (omega (arith, length-append host (b']' ∷ b':' ∷ []))) in
    rw (closing, bracket_host, colon, count, inside, rest, port_read port h, e) refl

-- The addresses that are printed so that they can be read: one of IPv4, one of IPv6 at the default
-- port, and one of IPv6 in brackets at another port.
pub data IsWritten : Address → Type 0 where
  over_ipv4 :
      (x : ℕ) (host : Bytes) (port : ℕ)
      → (x == b'[') ≡ false
      → Lacks b':' (x ∷ host)
      → port < 2 ^ 16
      → IsWritten (record { addrfam = ipv4; brackets = false; host = x ∷ host; port = port })
  over_ipv6 :
      (x : ℕ) (host : Bytes)
      → (x == b'[') ≡ false
      → IsWritten (record { addrfam = ipv6; brackets = false; host = x ∷ host; port = 21 })
  in_brackets :
      (host : Bytes) (port : ℕ)
      → Lacks b']' host
      → (port == 21) ≡ false
      → port < 2 ^ 16
      → IsWritten (record { addrfam = ipv6; brackets = true; host = host; port = port })

-- For an address that is written in one of the three readable ways, of IsWritten, reading what is
-- printed of it with its family in front gives it back.
pub parse_address-to_text : (a : Address) → IsWritten a → parse_address (to_text true a) ≡ a
unfolding parse_address to_text plain_host
parse_address-to_text _ (over_ipv4 x host port b l h) =
    let long : ltb 3 (suc (suc (suc (suc (length (host ++ port_text port)))))) ≡ true =
      ground arith in
    rw long (
      rw (host_part-NoBracket ipv4 (x ∷ (host ++ port_text port)) b)
        (read_plain (x ∷ host) port l h))
parse_address-to_text _ (over_ipv6 x host b) =
    let long : ltb 3 (suc (suc (suc (suc (length host))))) ≡ true = ground arith in
    rw (append-nil host, long) (rw (host_part-NoBracket ipv6 (x ∷ host) b) refl)
parse_address-to_text _ (in_brackets host port l e h) =
    let text = (host ++ b']' ∷ []) ++ b':' ∷ to_string port in
    let long : ltb 3 (suc (suc (suc (suc (length text))))) ≡ true = ground arith in
    rw (e, long) (read_brackets host port l e h)
