-- ===== src/Bnc/Client.antt =====
-- bnc/bncsessionclient.h and bnc/bncsessionclient.cpp: the connection to the site. This module has
-- the state and the short operations; Commands has `sendData`, Responses has `FDData` and
-- Brackets the text it replaces. Log lines
-- and the tag, which only they read, are left out. What the session does with a call of its client
-- is done here where it is a call of the IOManager on the client's socket `parent`; how the session
-- ends is not part of this module.
pub mod Commands
pub mod Brackets
pub mod Responses
pub mod Ledger
pub mod Replies
pub mod Bracketed
pub mod Settling
pub mod Endings
use cbbncd.Base.{
  ℕ, Bool, true, false, ◌&&◌, ◌||◌, List, [], ◌∷◌, ◌++◌, Option, none, some, if◌then◌else◌,
}
use cbbncd.Base.Int.{ℤ}
use cbbncd.Base.Text.{Bytes, codes}
use cbbncd.Types.{AddressFamily}
use cbbncd.Ftp.PasvString.{Parsed, parsed, refused, throws, overflows}
use cbbncd.Ftp.CommandParser.{CommandParser}
use cbbncd.Ftp.CommandParser
use cbbncd.Ftp.ResponseParser.{ResponseParser}
use cbbncd.Ftp.ResponseParser
use cbbncd.Traffic.World.{
  World, calling, register_tcp_client_socket, close_socket, pause, resume, send_data,
}
use cbbncd.Traffic.Session.{TrafficBncSession, Answers}
use cbbncd.Traffic.Sessions.{disconnect_all}

pub data TlsState : Type 0 where
  tls_none tls_query tls_in_progress tls_active : TlsState

pub data ResponseCatch : Type 0 where
  no_catch catch_auth_tls catch_pasv catch_epsv catch_port catch_eprt : ResponseCatch

pub data OriginCatch : Type 0 where
  no_origin origin_pasv origin_epsv_1 origin_epsv_2 origin_port : OriginCatch

pub record BncSessionClient : Type 0 where
  pub sockid : ℕ
  pub identstr : Bytes
  pub identreceived : Bool
  pub paused : Bool
  pub connected : Bool
  pub commandparser : CommandParser
  pub responseparser : ResponseParser
  pub responsecatch : ResponseCatch
  pub origincatch : OriginCatch
  pub tlsstate : TlsState
  pub parentcipher : Bytes
  pub cipher : Bytes
  pub tbncsessions : List TrafficBncSession
  pub ifaddr4 : Bytes
  pub ifaddr6 : Bytes
  pub traffic : Bool
  pub sitehost : Bytes
  pub clientaddrfam : AddressFamily
  pub siteaddrfam : AddressFamily
  pub clientaddr : Bytes
  pub siteifaddr : Bytes
  pub noidnt : Bool

-- What an operation asks of the outside: `malloc`, the answers for the traffic sessions, and what
-- `sendData` of the IOManager returns (each operation calls it once).
pub record Outside : Type 0 where
  pub malloc : ℕ → Bytes
  pub answers : Answers
  pub sent : Bool

-- How an operation ends: it returns, an assertion fails, an exception leaves it, the standard leaves
-- its behaviour undefined, or it does not end.
pub data Outcome {ℓ} (A : Type ℓ) : Type ℓ where
  done : A → Outcome A
  aborts : Outcome A
  escapes : Outcome A
  undefined : Outcome A
  endless : Outcome A

infixl 5 ◌>>=◌
abbrev pub ◌>>=◌ {ℓ κ} : {A : Type ℓ} {B : Type κ} → Outcome A → (A → Outcome B) → Outcome B
done a >>= f = f a
aborts >>= f = aborts
escapes >>= f = escapes
undefined >>= f = undefined
endless >>= f = endless

abbrev pub or_endless {ℓ} : {A : Type ℓ} → Option A → Outcome A
or_endless none = endless
or_endless (some a) = done a

-- `v.at(i)`.
abbrev pub or_escape {ℓ} : {A : Type ℓ} → Option A → Outcome A
or_escape none = escapes
or_escape (some a) = done a

-- `v[i]`, without a test of the bound.
abbrev pub or_undefined {ℓ} : {A : Type ℓ} → Option A → Outcome A
or_undefined none = undefined
or_undefined (some a) = done a

-- `if (fromPASVString(...))`: what it read, or that it read nothing.
abbrev pub tried {ℓ} : {A : Type ℓ} → Parsed A → Outcome (Option A)
tried (parsed a) = done (some a)
tried refused = done none
tried throws = escapes
tried overflows = undefined

abbrev pub crlf : Bytes
crlf = b'\r' ∷ b'\n' ∷ []

-- `sockid` is what `registerTCPClientSocket` returns.
unfoldable pub activate :
    ℕ
    → AddressFamily
    → Bytes
    → AddressFamily
    → Bytes
    → ℤ
    → Bytes
    → Bytes
    → BncSessionClient
    → World
    → BncSessionClient × World
activate sockid clientaddrfam clientaddr siteaddrfam sitehost siteport ifaddr4 ifaddr6 c w = (
  record c {
    ifaddr4 = ifaddr4;
    ifaddr6 = ifaddr6;
    clientaddrfam = clientaddrfam;
    siteaddrfam = siteaddrfam;
    sitehost = sitehost;
    clientaddr = clientaddr;
    identreceived = false;
    paused = false;
    connected = false;
    tlsstate = tls_none;
    commandparser = CommandParser.reset c.commandparser;
    responseparser = ResponseParser.reset c.responseparser;
    responsecatch = no_catch;
    origincatch = no_origin;
    sockid = sockid;
  },
  calling (register_tcp_client_socket sitehost siteport siteaddrfam) w,
)

unfoldable pub check_send_ident : BncSessionClient → World → World
check_send_ident c w =
    if c.identreceived && c.connected
    then calling (send_data (some c.sockid) (codes "IDNT " ++ (c.identstr ++ crlf))) w
    else w

unfoldable pub ident : Bytes → BncSessionClient → World → Outcome (BncSessionClient × World)
unfolding check_send_ident
ident identstr c w =
    let c' = record c { identstr = identstr; identreceived = true } in
    if c.noidnt then aborts else done (c', check_send_ident c' w)

-- `siteifaddr` and `siteaddrfam` are what the IOManager knows of the connection.
unfoldable pub fd_connected :
    Bytes → AddressFamily → BncSessionClient → World → BncSessionClient × World
unfolding check_send_ident
fd_connected siteifaddr siteaddrfam c w =
    let c' = record c { connected = true } in
    (
      record c' { siteifaddr = siteifaddr; siteaddrfam = siteaddrfam },
      if c.noidnt then w else check_send_ident c' w,
    )

abbrev pub drop_transfers : BncSessionClient → World → BncSessionClient × World
drop_transfers c w =
    let (ss, w') = disconnect_all c.tbncsessions w in
    if c.traffic then (record c { tbncsessions = ss }, w') else (c, w)

unfoldable pub disconnect : BncSessionClient → World → BncSessionClient × World
disconnect c w = drop_transfers (record c { connected = false }) (calling (close_socket c.sockid) w)

unfoldable pub send_complete : BncSessionClient → World → BncSessionClient × World
send_complete c w =
    if c.paused then (record c { paused = false }, calling (resume (some c.sockid)) w) else (c, w)

unfoldable pub fd_ssl_success : Bytes → BncSessionClient → Outcome BncSessionClient
fd_ssl_success cipher c = elim c.tlsstate [
  | tls_in_progress ↦ done (record c { cipher = cipher; tlsstate = tls_active })
  | _ ↦ aborts
]

abbrev pub parent_tls_success : Bytes → BncSessionClient → BncSessionClient
parent_tls_success cipher c = record c { parentcipher = cipher }

-- `session->targetData(...)`, and the pause when the client does not keep up.
unfoldable pub to_client : Outside → ℕ → Bytes → BncSessionClient → World → BncSessionClient × World
to_client o parent bytes c w =
    let w' = calling (send_data (some parent) bytes) w in
    if o.sent || c.paused
    then (c, w')
    else (record c { paused = true }, calling (pause (some c.sockid)) w')
