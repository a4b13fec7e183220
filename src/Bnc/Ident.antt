-- ===== src/Bnc/Ident.antt =====
-- bnc/ident.h and bnc/ident.cpp: the question to the client's ident server. What a handler tells its
-- session is its result, `none` where it tells it nothing; Session passes it on.
pub mod Reading
use cbbncd.Base.{
  ℕ, zero, suc, ◌+◌, ◌-◌, Bool, true, false, ◌&&◌, ◌||◌, List, [], ◌∷◌, ◌++◌, Option, none, some,
  ◌==◌, if◌then◌else◌, length, drop,
}
use cbbncd.Base.Text.{Bytes, codes, to_string}
use cbbncd.Types.{AddressFamily}
use cbbncd.Base.Int.{pos}
use cbbncd.Util.{find_text}
use cbbncd.Traffic.World.{
  World, calling, register_tcp_client_socket, close_socket, send_data, start_poke, stop_poke,
}

pub record Ident : Type 0 where
  pub active : Bool
  pub sockid : ℕ
  pub sourceport : ℕ
  pub targetport : ℕ

-- `sockid` is what `registerTCPClientSocket` returns.
unfoldable pub activate : ℕ → AddressFamily → Bytes → ℕ → ℕ → World → Ident × World
activate sockid sourceaddrfam sourcehost sourceport targetport w = (
  record { active = true; sockid = sockid; sourceport = sourceport; targetport = targetport },
  calling (start_poke 3000 sockid)
      (calling (register_tcp_client_socket sourcehost (pos 113) sourceaddrfam) w),
)

unfoldable pub fd_connected : Ident → World → World
fd_connected i w =
    calling
      (send_data (some i.sockid)
        (to_string i.sourceport ++ (codes ", " ++ (to_string i.targetport ++ b'\r' ∷ b'\n' ∷ []))))
      w

abbrev pub is_newline : ℕ → Bool
is_newline c = c == b'\n' || c == b'\r'

-- The line ends at the end of a text, of which one byte is kept at least: what is behind the first
-- byte, without its last line ends.
unfoldable pub cut_rest : Bytes → Bytes
cut_rest [] = []
cut_rest (c ∷ s) =
    let rest = cut_rest s in
    elim rest [ [] ↦ if is_newline c then [] else c ∷ [] | x ∷ xs ↦ c ∷ x ∷ xs ]

unfoldable pub cut_newlines : Bytes → Bytes
unfolding cut_rest
cut_newlines [] = []
cut_newlines (c ∷ s) = c ∷ cut_rest s

-- `s.rfind(':')`, as the text behind that colon.
unfoldable pub behind_colon : Bytes → Option Bytes
behind_colon [] = none
behind_colon (c ∷ s) = elim (behind_colon s) [
  | none ↦ if c == b':' then some s else none
  | some user ↦ some user
]

unfoldable pub skip_spaces : Bytes → Bytes
skip_spaces [] = []
skip_spaces (c ∷ s) = if c == b' ' then skip_spaces s else c ∷ s

abbrev pub map_skip : Option Bytes → Option Bytes
map_skip none = none
map_skip (some s) = some (skip_spaces s)

-- What the session is told of a reply without its line ends: the user; `*` where no USERID stands
-- in it; and nothing where USERID stands in it but no colon.
unfoldable pub told_of : Bytes → Option Bytes
unfolding behind_colon skip_spaces
told_of identstr = elim (find_text (codes "USERID") identstr 0) [
  | none ↦ some (codes "*")
  | some place ↦ map_skip (behind_colon identstr)
]

unfoldable pub told : Bytes → Option Bytes
unfolding cut_newlines told_of
told buf = told_of (cut_newlines buf)

abbrev pub deactivate : Ident → World → Ident × World
deactivate i w = (record i { active = false }, calling (stop_poke i.sockid) w)

-- `FDDisconnected` and `FDFail` tell `*` to the session of an active ident before they deactivate.
abbrev pub told_inactive : Ident → Option Bytes
told_inactive i = if i.active then some (codes "*") else none

-- `tick`, of which the call of `deactivate` follows.
abbrev pub told_late : ℕ → Ident → Option Bytes
told_late sockid i = if i.active && sockid == i.sockid then some (codes "*") else none

unfoldable pub close : Ident → World → Ident × World
close i w = let (i', w') = deactivate i w in (i', calling (close_socket i.sockid) w')
