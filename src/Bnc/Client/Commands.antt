-- ===== src/Bnc/Client/Commands.antt =====
-- bnc/bncsessionclient.cpp: `sendData`, what the site gets for a command of the client.
pub mod Ports
pub mod Endings
use cbbncd.Base.{
  ℕ, Bool, true, false, not, ◌&&◌, ◌||◌, List, [], ◌∷◌, ◌++◌, Option, none, some, if◌then◌else◌,
  get_elem?,
}
use cbbncd.Base.Int.{ℤ}
use cbbncd.Base.Text.{Bytes, codes, same}
use cbbncd.Types.{AddressFamily, ipv4, ipv6, is_ipv4, is_ipv6}
use cbbncd.Util.{is_empty, split}
use cbbncd.Ftp.PasvString.{
  from_pasv_string, to_pasv_string, from_extended_pasv_string, to_extended_pasv_string,
}
use cbbncd.Ftp.Buffer.{contents}
use cbbncd.Ftp.CommandParser.{CommandParser, get_command_trimmed_upper}
use cbbncd.Ftp.CommandParser
use cbbncd.Traffic.World.{World, calling, send_data}
use cbbncd.Traffic.Session.{TrafficBncSession}
use cbbncd.Traffic.Sessions.{activate_any}
use cbbncd.Bnc.Client.{
  TlsState, tls_none, tls_query, catch_auth_tls, catch_pasv, catch_epsv, catch_port, catch_eprt,
  origin_pasv, origin_epsv_1, origin_epsv_2, origin_port, BncSessionClient, Outside, Outcome, done,
  aborts, endless, ◌>>=◌, or_endless, or_undefined, tried, crlf,
}

abbrev pub is_tls_none : TlsState → Bool
is_tls_none tls_none = true
is_tls_none _ = false

-- The client, the modified command (empty if the command goes on as it is) and the world.
abbrev pub Rewrite : Type 0
Rewrite = BncSessionClient × Bytes × World

unfoldable pub rewrite_pasv : BncSessionClient → World → Rewrite
rewrite_pasv c w =
    if is_ipv6 c.siteaddrfam
    then (record c { responsecatch = catch_epsv; origincatch = origin_pasv }, codes "EPSV 2", w)
    else (record c { responsecatch = catch_pasv }, [], w)

unfoldable pub rewrite_epsv : Bytes → BncSessionClient → World → Rewrite
rewrite_epsv command c w =
    let caught = record c { responsecatch = catch_epsv } in
    let first =
      if is_ipv4 c.siteaddrfam && same command (codes "EPSV 2")
      then (record caught { origincatch = origin_epsv_2 }, codes "EPSV 1", w)
      else (caught, [], w) in
    if is_ipv6 c.siteaddrfam && not (same command (codes "EPSV 2"))
    then (record (first.0) { origincatch = origin_epsv_1 }, codes "EPSV 2", w)
    else first

-- The rest of the PORT branch, on what `tbncsessions->activate` returned.
unfoldable pub port_bound :
    Bytes → BncSessionClient → Option ℕ × List TrafficBncSession × World → Outcome Rewrite
port_bound word c (none, ss, w) =
    done (record c { tbncsessions = ss; responsecatch = catch_port }, codes "NOOP", w)
port_bound word c (some port, ss, w) =
    let c' = record c { tbncsessions = ss } in
    if is_ipv4 c.siteaddrfam
    then or_endless (to_pasv_string c.siteifaddr port)
      >>= (λ pasv. done (c', word ++ (codes " " ++ pasv), w))
    else done (
      record c' { responsecatch = catch_eprt; origincatch = origin_port },
      codes "EPRT " ++ to_extended_pasv_string ipv6 c.siteifaddr port,
      w,
    )

abbrev pub port_caught :
    Outside → Bytes → BncSessionClient → World → Option (Bytes × ℤ) → Outcome Rewrite
port_caught o word c w none = done (c, [], w)
port_caught o word c w (some (addr, port)) =
    port_bound word c (activate_any o.answers c.siteaddrfam ipv4 addr port c.tbncsessions w)

unfoldable pub rewrite_port :
    Outside → Bytes → List Bytes → BncSessionClient → World → Outcome Rewrite
rewrite_port o word words c w = do
  text ← or_undefined (get_elem? words 1)
  address ← tried (from_pasv_string text)
  port_caught o word c w address

-- The rest of the EPRT branch, on what `tbncsessions->activate` returned.
unfoldable pub eprt_bound :
    Bytes → BncSessionClient → Option ℕ × List TrafficBncSession × World → Rewrite
eprt_bound word c (none, ss, w) =
    (record c { tbncsessions = ss; responsecatch = catch_eprt }, codes "NOOP", w)
eprt_bound word c (some port, ss, w) = (
  record c { tbncsessions = ss },
  word ++ (codes " " ++ to_extended_pasv_string c.siteaddrfam c.siteifaddr port),
  w,
)

abbrev pub eprt_caught :
    Outside
    → Bytes
    → BncSessionClient
    → World
    → Option (AddressFamily × Bytes × ℤ)
    → Outcome Rewrite
eprt_caught o word c w none = done (c, [], w)
eprt_caught o word c w (some (addrfam, addr, port)) =
    let own = is_empty addr in
    let usefam = if own then c.clientaddrfam else addrfam in
    let useaddr = if own then c.clientaddr else addr in
    done (
      eprt_bound word c (activate_any o.answers c.siteaddrfam usefam useaddr port c.tbncsessions w))

unfoldable pub rewrite_eprt :
    Outside → Bytes → List Bytes → BncSessionClient → World → Outcome Rewrite
rewrite_eprt o word words c w = do
  text ← or_undefined (get_elem? words 1)
  address ← tried (from_extended_pasv_string text)
  eprt_caught o word c w address

-- What a command is to `sendData`.
pub data Kind : Type 0 where
  auth_command pasv_command epsv_command port_command eprt_command other_command : Kind

-- The tests, in their order; `word` is `commandwords[0]`.
unfoldable pub kind : TlsState → Bytes → Bytes → Kind
kind tls command word =
    if is_tls_none tls && (same command (codes "AUTH TLS") || same command (codes "AUTH SSL"))
    then auth_command
    else if same command (codes "PASV") || same command (codes "CPSV")
    then pasv_command
    else if same word (codes "EPSV")
    then epsv_command
    else if same word (codes "PORT")
    then port_command
    else if same word (codes "EPRT")
    then eprt_command
    else other_command

unfoldable pub rewrite :
    Outside → Kind → Bytes → Bytes → List Bytes → BncSessionClient → World → Outcome Rewrite
rewrite o auth_command command word words c w =
    done (record c { tlsstate = tls_query; responsecatch = catch_auth_tls }, [], w)
rewrite o pasv_command command word words c w = done (rewrite_pasv c w)
rewrite o epsv_command command word words c w = done (rewrite_epsv command c w)
rewrite o port_command command word words c w = rewrite_port o word words c w
rewrite o eprt_command command word words c w = rewrite_eprt o word words c w
rewrite o other_command command word words c w = done (c, [], w)

-- The command, its words and what is made of it.
unfoldable pub rewritten : Outside → BncSessionClient → World → Outcome Rewrite
unfolding rewrite kind
rewritten o c w = do
  let command = get_command_trimmed_upper c.commandparser
  words ← or_endless (split command (codes " "))
  word ← or_undefined (get_elem? words 0)
  rewrite o (kind c.tlsstate command word) command word words c w

-- The end of `sendData`: the command is sent, and its parser is reset.
unfoldable pub forwarded : Outside → Rewrite → Bool × BncSessionClient × World
forwarded o (c, modified, w) = (
  o.sent,
  record c { commandparser = CommandParser.reset c.commandparser },
  calling
      (send_data (some c.sockid)
        (if is_empty modified then contents c.commandparser.buffer else modified ++ crlf))
      w,
)

-- With a parsed chunk: the result says whether the session may go on sending.
abbrev pub gathered :
    Outside
    → BncSessionClient
    → World
    → Option (Bool × CommandParser)
    → Outcome (Bool × BncSessionClient × World)
gathered o c w none = endless
gathered o c w (some (false, p)) = done (true, record c { commandparser = p }, w)
gathered o c w (some (true, p)) = do
  rewrite ← rewritten o (record c { commandparser = p }) w
  done (forwarded o rewrite)

unfoldable pub send_command :
    Outside → Bytes → BncSessionClient → World → Outcome (Bool × BncSessionClient × World)
unfolding rewritten forwarded
send_command o data_bytes c w =
    let through = done (o.sent, c, calling (send_data (some c.sockid) data_bytes) w) in
    let parsed = gathered o c w (CommandParser.parse o.malloc c.commandparser data_bytes) in
    if c.identreceived || c.noidnt then (if c.traffic then parsed else through) else aborts
