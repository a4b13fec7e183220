-- ===== src/Tests/Addresses.antt =====
-- The addresses of the command line.
use cbbncd.Base.{◌≡◌, refl, true, false, List, some, arith}
use cbbncd.Base.Text.{codes, find_from, stoi}
use cbbncd.Types.{ipv6, ipv4_ipv6}
use cbbncd.Address.{Address, to_text, guessed_family, parse_address, parse_addresses}
use cbbncd.Address.RoundTrip.{in_brackets, parse_address-to_text}
use cbbncd.Address.Parting.{parse_addresses_ends}

abbrev bracketed_address : Address
bracketed_address = record { addrfam = ipv6; brackets = true; host = codes "::1"; port = 990 }

parse_address-to_text_example : parse_address (to_text true bracketed_address) ≡ bracketed_address
parse_address-to_text_example =
    parse_address-to_text bracketed_address
      (in_brackets (codes "::1") 990 (refl, (refl, (refl, tt))) refl (omega arith))

-- A name with a port, of no family that can be told.
named_address :
    parse_address (codes "site.org:2121")
    ≡ record { addrfam = ipv4_ipv6; brackets = false; host = codes "site.org"; port = 2121 }
unfolding parse_address find_from stoi guessed_family
named_address = refl

parse_addresses_ends_example :
    (addresses : List Address) × (parse_addresses (codes "10.0.0.1, [::1]:990") ≡ some addresses)
parse_addresses_ends_example = parse_addresses_ends (codes "10.0.0.1, [::1]:990")
