-- ===== src/Bnc/Session.antt =====
-- bnc/bncsession.h and bnc/bncsession.cpp: the client's side of a session, and the handlers of its
-- ident and of its connection to the site that reach it.
pub mod Events
pub mod Queue
pub mod Silence
use cbbncd.Base.{
  ℕ, Bool, true, false, not, ◌&&◌, List, [], ◌∷◌, ◌++◌, Option, none, some, ◌==◌, if◌then◌else◌,
  length,
}
use cbbncd.Base.Int.{ℤ}
use cbbncd.Base.Text.{Bytes, codes}
use cbbncd.Types.{AddressFamily}
use cbbncd.Traffic.World.{
  World, calling, register_tcp_server_client_socket, close_socket, pause, resume,
}
use cbbncd.Bnc.Client.{BncSessionClient, Outside, Outcome, done, undefined, ◌>>=◌, drop_transfers}
use cbbncd.Bnc.Client
use cbbncd.Bnc.Client.Commands.{send_command}
use cbbncd.Bnc.Ident.{Ident, told, told_inactive, told_late, deactivate, close}
use cbbncd.Bnc.Ident

pub data State : Type 0 where
  disconnected ident_state established : State

pub record BncSession : Type 0 where
  pub sessionclient : BncSessionClient
  pub identp : Option Ident
  pub noidnt : Bool
  pub state : State
  pub listenport : ℕ
  pub sockid : ℕ
  pub srcaddr : Bytes
  pub ifaddr4 : Bytes
  pub ifaddr6 : Bytes
  pub paused : Bool
  pub sendqueue : List Bytes

unfoldable pub active : BncSession → Bool
active s = elim s.state [ disconnected ↦ false | _ ↦ true ]

unfoldable pub colon_replace : Bytes → Bytes
colon_replace [] = []
colon_replace (c ∷ s) =
    let rest = colon_replace s in if c == b':' then 92 ∷ (codes "x3A" ++ rest) else c ∷ rest

-- The text behind the user in the IDNT command.
abbrev pub ident_of : Bytes → Bytes → Bytes
ident_of user srcaddr = user ++ (b'@' ∷ (srcaddr ++ (b':' ∷ colon_replace srcaddr)))

-- The loop of `sendQueuedData`; `outside` has the answers for each chunk, by the number of those
-- behind it.
unfoldable pub drain :
    (ℕ → Outside)
    → ℕ
    → List Bytes
    → Bool
    → BncSessionClient
    → World
    → Outcome (List Bytes × Bool × BncSessionClient × World)
drain outside sockid [] paused c w = done ([], paused, c, w)
drain outside sockid (chunk ∷ queue) true c w = done (chunk ∷ queue, true, c, w)
drain outside sockid (chunk ∷ queue) false c w =
    send_command (outside (length queue)) chunk c w >>= (λ r.
      if r.0
      then drain outside sockid queue false r.1 r.2
      else done (queue, true, r.1, calling (pause (some sockid)) r.2))

unfoldable pub send_queued_data : (ℕ → Outside) → BncSession → World → Outcome (BncSession × World)
unfolding drain
send_queued_data outside s w = do
  (queue, paused, c, w') ← drain outside s.sockid s.sendqueue s.paused s.sessionclient w
  done (record s { sendqueue = queue; paused = paused; sessionclient = c }, w')

unfoldable pub ident : (ℕ → Outside) → Bytes → BncSession → World → Outcome (BncSession × World)
unfolding send_queued_data Client.ident
ident outside user s w = elim s.state [
  | ident_state ↦ do
    (c, w') ← Client.ident (ident_of user s.srcaddr) s.sessionclient w
    send_queued_data outside (record s { state = established; sessionclient = c }) w'
  | _ ↦ done (s, w)
]

-- What the ident tells its session.
abbrev pub tell : (ℕ → Outside) → Option Bytes → BncSession → World → Outcome (BncSession × World)
tell outside none s w = done (s, w)
tell outside (some user) s w = ident outside user s w

-- What the IOManager answers about a new client.
pub record Accepted : Type 0 where
  pub source : Bytes
  pub sourceaddrfam : AddressFamily
  pub sourceport : ℕ
  pub interface4 : Option Bytes
  pub interface6 : Option Bytes
  pub site_sockid : ℕ
  pub ident_sockid : ℕ

abbrev pub or_kept : Option Bytes → Bytes → Bytes
or_kept none kept = kept
or_kept (some new) kept = new

-- The end of `activate`: with an ident, or with none.
abbrev pub begun : Accepted → Option Ident → BncSession → World → Outcome (BncSession × World)
begun a (some i) s w =
    let (i', w') =
      Ident.activate a.ident_sockid a.sourceaddrfam a.source a.sourceport s.listenport w in
    done (record s { state = ident_state; identp = some i' }, w')
begun a none s w =
    let s' = record s { state = established } in
    if s.noidnt
    then done (s', w)
    else Client.ident (ident_of (codes "*") s.srcaddr) s'.sessionclient w
      >>= (λ r. done (record s' { sessionclient = r.0 }, r.1))

unfoldable pub activate :
    Accepted → ℕ → AddressFamily → Bytes → ℤ → BncSession → World → Outcome (BncSession × World)
unfolding Client.activate Client.ident Ident.activate
activate a newsockid siteaddrfam sitehost siteport s w =
    let ifaddr4 = or_kept a.interface4 s.ifaddr4 in
    let ifaddr6 = or_kept a.interface6 s.ifaddr6 in
    let w' = calling (register_tcp_server_client_socket newsockid true) w in
    let (c, w2) =
      Client.activate a.site_sockid a.sourceaddrfam a.source siteaddrfam sitehost siteport ifaddr4
        ifaddr6 s.sessionclient w' in
    begun a s.identp
      (record s {
        sockid = newsockid;
        paused = false;
        srcaddr = a.source;
        ifaddr4 = ifaddr4;
        ifaddr6 = ifaddr6;
        sessionclient = c;
      })
      w2
