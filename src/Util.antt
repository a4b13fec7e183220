-- ===== src/Util.antt =====
-- util.cpp: splitting and trimming lists of texts.
pub mod Split
use cbbncd.Base.{
  ℕ, zero, suc, ◌+◌, ◌-◌, Bool, true, false, ◌&&◌, List, [], ◌∷◌, ◌++◌, Option, none, some, ◌==◌,
  if◌then◌else◌, length, take, drop,
}
use cbbncd.Base.Text.{Bytes, codes, substr}
use cbbncd.Types.{AddressFamily, is_ipv6}

abbrev pub begins : Bytes → Bytes → Bool
begins [] s = true
begins (c ∷ sep) [] = false
begins (c ∷ sep) (x ∷ s) = c == x && begins sep s

-- The first place of a text, counted from `i`.
abbrev pub find_text_at : Bytes → ℕ → Bytes → Option ℕ
find_text_at sep i [] = if begins sep [] then some i else none
find_text_at sep i (x ∷ s) = if begins sep (x ∷ s) then some i else find_text_at sep (i + 1) s

-- `s.find(sep, start)`.
unfoldable pub find_text : Bytes → Bytes → ℕ → Option ℕ
find_text sep s start = find_text_at sep start (drop start s)

abbrev pub also : Bytes → Option (List Bytes) → Option (List Bytes)
also part none = none
also part (some parts) = some (part ∷ parts)

-- The loop of `split` and `splitVec`; `none` is a loop cut off by its fuel.
unfoldable pub split_loop : ℕ → Bytes → Bytes → ℕ → Option (List Bytes)
split_loop zero text sep start = none
split_loop (suc fuel) text sep start = elim (find_text sep text start) [
  | none ↦ some (drop start text ∷ [])
  | some end ↦ also (substr text start (end - start)) (split_loop fuel text sep (end + length sep))
]

unfoldable pub split : Bytes → Bytes → Option (List Bytes)
unfolding split_loop
split text sep = split_loop (length text + 1) text sep 0

abbrev pub is_empty : Bytes → Bool
is_empty [] = true
is_empty (x ∷ s) = false

-- `pop_front` where the front is empty.
unfoldable pub drop_front : List Bytes → List Bytes
drop_front [] = []
drop_front (s ∷ l) = if is_empty s then l else s ∷ l

-- `pop_back` where the back is empty.
unfoldable pub drop_back : List Bytes → List Bytes
drop_back [] = []
drop_back (s ∷ []) = if is_empty s then [] else s ∷ []
drop_back (s ∷ t ∷ l) = s ∷ drop_back (t ∷ l)

-- The front and the back are looked at once each; the early return of the source gives the same.
unfoldable pub trim : List Bytes → List Bytes
unfolding drop_front drop_back
trim l = drop_back (drop_front l)

unfoldable pub ip_format : AddressFamily → Bytes → Bytes
ip_format addrfam addr = if is_ipv6 addrfam then codes "[" ++ (addr ++ codes "]") else addr
