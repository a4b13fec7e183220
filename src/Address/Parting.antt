-- ===== src/Address/Parting.antt =====
-- The loops of `parseAddresses` come to an end.
use cbbncd.Base.{
  ℕ, zero, suc, ◌+◌, ◌<◌, ◌≡◌, refl, List, ◌++◌, Option, none, some, length, length-append,
  length-take, length-drop, take, drop, arith, map, Option-cases, inl, inr,
}
use cbbncd.Base.Text.{Bytes, codes}
use cbbncd.Util.{find_text, find_text_at, trim}
use cbbncd.Util.Split.{find_text_at-some, Joins, split-Joins}
use cbbncd.Ftp.PasvString.Replace.{replaced, replace_bytes_lem}
use cbbncd.Address.{Address, squeeze, parse_address, parse_addresses}

squeeze-some : (fuel : ℕ) (s : Bytes) → length s < fuel → (r : Bytes) × (squeeze fuel s ≡ some r)
unfolding squeeze find_text
squeeze-some zero s h = absurd (omega arith)
squeeze-some (suc fuel) s h = elim (Option-cases (find_text_at (codes "  ") 0 s)) [
  | inl e ↦ (s, rw (e, squeeze) refl)
  | inr (place, e) ↦
      let (le, ge, parts) = find_text_at-some (codes "  ") 0 s e in
      let shorter : length (take place s ++ drop (place + 1) s) < fuel = omega (
        arith,
        length-append (take place s) (drop (place + 1) s),
        length-take place s,
        length-drop (place + 1) s,
      ) in
      let (r, q) = squeeze-some fuel (take place s ++ drop (place + 1) s) shorter in
      (r, rw (e, squeeze) q)
]

split-some :
    (text : Bytes) (o : Option (List Bytes))
    → Joins (codes " ") text o
    → (parts : List Bytes) × (o ≡ some parts)
split-some text none j = absurd j
split-some text (some parts) j = (parts, refl)

-- All loops of `parseAddresses` end: whatever the text, a list of addresses comes out.
pub parse_addresses_ends :
    (addrstr : Bytes) → (addresses : List Address) × (parse_addresses addrstr ≡ some addresses)
unfolding parse_addresses
parse_addresses_ends addrstr =
    let first = replaced b';' b' ' addrstr in
    let second = replaced b',' b' ' first in
    let (squeezed, e) = squeeze-some (length second + 1) second (omega arith) in
    let (parts, p) = split-some squeezed _ (split-Joins squeezed (codes " ") (omega arith)) in
    (
      map parse_address (trim parts),
      rw (replace_bytes_lem b';' b' ' addrstr refl, replace_bytes_lem b',' b' ' first refl, e, p)
          refl,
    )
