-- ===== src/Bnc/Client/Responses.antt =====
-- bnc/bncsessionclient.cpp: `FDData`, what the client gets for a response of the site.
pub mod Ports
pub mod Endings
use cbbncd.Base.{
  ℕ, ◌+◌, ◌-◌, Bool, true, false, not, ◌&&◌, ◌||◌, List, [], ◌∷◌, ◌++◌, Option, none, some, ltb,
  ◌==◌, if◌then◌else◌, take, drop, map,
}
use cbbncd.Base.Int.{ℤ}
use cbbncd.Base.Text.{Bytes, codes, same, find_from, substr}
use cbbncd.Types.{AddressFamily, ipv4, ipv6, is_ipv4}
use cbbncd.Util.{is_empty}
use cbbncd.Ftp.PasvString.{
  from_pasv_string, to_pasv_string, from_extended_pasv_string, to_extended_pasv_string,
  to_extended_pasv_string_port,
}
use cbbncd.Ftp.Buffer.{contents}
use cbbncd.Ftp.ResponseParser.{ResponseParser}
use cbbncd.Ftp.ResponseParser
use cbbncd.Traffic.World.{World, calling, negotiate_ssl_accept, negotiate_ssl_connect}
use cbbncd.Traffic.Session.{TrafficBncSession}
use cbbncd.Traffic.Sessions.{activate_any}
use cbbncd.Bnc.Client.Brackets.{text_start, text_end, between, behind, with_host}
use cbbncd.Bnc.Client.{
  tls_in_progress, ResponseCatch, no_catch, catch_auth_tls, catch_pasv, catch_epsv, catch_port,
  catch_eprt, OriginCatch, no_origin, origin_pasv, origin_epsv_1, origin_epsv_2, origin_port,
  BncSessionClient, Outside, Outcome, done, escapes, endless, ◌>>=◌, or_endless, tried, crlf,
  to_client,
}

abbrev pub is_caught : ResponseCatch → Bool
is_caught no_catch = false
is_caught _ = true

abbrev pub exhausted_response : Bytes
exhausted_response = codes "502 cbbncd: passive port range exhausted." ++ crlf

-- The modified response (empty if the response goes on as it is), whether TLS is to be negotiated,
-- the client and the world.
abbrev pub Reply : Type 0
Reply = Bytes × Bool × BncSessionClient × World

-- The rest of the PASV branch, on what `tbncsessions->activate` returned.
unfoldable pub pasv_bound :
    Bytes
    → ℕ
    → Option ℕ
    → BncSessionClient
    → Option ℕ × List TrafficBncSession × World
    → Outcome Reply
pasv_bound response start end c (none, ss, w) =
    done (exhausted_response, false, record c { tbncsessions = ss }, w)
pasv_bound response start end c (some port, ss, w) = do
  pasv ← or_endless (to_pasv_string c.ifaddr4 port)
  rest ← behind response end
  done (take start response ++ (pasv ++ rest), false, record c { tbncsessions = ss }, w)

abbrev pub pasv_reply :
    Outside → Bytes → BncSessionClient → World → Option (Bytes × ℤ) → Outcome Reply
pasv_reply o response c w none = done ([], false, c, w)
pasv_reply o response c w (some (addr, port)) =
    pasv_bound response (text_start response) (text_end response) c
      (activate_any o.answers ipv4 ipv4 addr port c.tbncsessions w)

unfoldable pub caught_pasv : Outside → Bytes → BncSessionClient → World → Outcome Reply
caught_pasv o response c w = do
  address ← tried (
      from_pasv_string
        (with_host c.sitehost (between response (text_start response) (text_end response))))
  pasv_reply o response c w address

-- The family on which the client is to connect.
abbrev pub original_family : OriginCatch → AddressFamily → AddressFamily
original_family no_origin addrfam = addrfam
original_family origin_pasv addrfam = ipv4
original_family origin_epsv_1 addrfam = ipv4
original_family origin_epsv_2 addrfam = ipv6
original_family origin_port addrfam = addrfam

abbrev pub is_origin_pasv : OriginCatch → Bool
is_origin_pasv origin_pasv = true
is_origin_pasv _ = false

abbrev pub interface_address : BncSessionClient → AddressFamily → Bytes
interface_address c originfam = if is_ipv4 originfam then c.ifaddr4 else c.ifaddr6

-- The reply to a client that sent PASV.
abbrev pub pasv_text : Bytes → Bytes
pasv_text pasv = codes "227 Entering Passive Mode (" ++ (pasv ++ (codes ")" ++ crlf))

-- The reply to a client that sent EPSV: the text between the brackets is replaced.
abbrev pub epsv_replaced : Bytes → ℕ → Option ℕ → Bytes → BncSessionClient → World → Outcome Reply
epsv_replaced response start end text c w = do
  rest ← behind response end
  done (take start response ++ (text ++ rest), false, c, w)

-- The rest of the EPSV branch, on what `tbncsessions->activate` returned.
unfoldable pub epsv_bound :
    Bytes
    → ℕ
    → Option ℕ
    → Bool
    → AddressFamily
    → BncSessionClient
    → Option ℕ × List TrafficBncSession × World
    → Outcome Reply
epsv_bound response start end own originfam c (none, ss, w) =
    done (exhausted_response, false, record c { tbncsessions = ss }, w)
epsv_bound response start end own originfam c (some port, ss, w) =
    let c' = record c { tbncsessions = ss } in
    let ifaddr = interface_address c originfam in
    if is_origin_pasv c.origincatch
    then or_endless (to_pasv_string ifaddr port) >>= (λ pasv. done (pasv_text pasv, false, c', w))
    else epsv_replaced response start end
        (if own
          then to_extended_pasv_string_port port
          else to_extended_pasv_string originfam ifaddr port)
        c' w

abbrev pub epsv_reply :
    Outside → Bytes → BncSessionClient → World → Option (AddressFamily × Bytes × ℤ) → Outcome Reply
epsv_reply o response c w none = done ([], false, c, w)
epsv_reply o response c w (some (addrfam, addr, port)) =
    let own = is_empty addr in
    let usefam = if own then c.siteaddrfam else addrfam in
    let useaddr = if own then c.sitehost else addr in
    let originfam = original_family c.origincatch usefam in
    epsv_bound response (text_start response) (text_end response) own originfam c
      (activate_any o.answers originfam usefam useaddr port c.tbncsessions w)

unfoldable pub caught_epsv : Outside → Bytes → BncSessionClient → World → Outcome Reply
caught_epsv o response c w = do
  address ←
      tried (from_extended_pasv_string (between response (text_start response) (text_end response)))
  epsv_reply o response c w address

abbrev pub is_origin_port : OriginCatch → Bool
is_origin_port origin_port = true
is_origin_port _ = false

-- The `switch` of `FDData`.
unfoldable pub caught :
    Outside → ResponseCatch → ℕ → Bytes → BncSessionClient → World → Outcome Reply
unfolding caught_pasv caught_epsv
caught o no_catch code response c w = done ([], false, c, w)
caught o catch_auth_tls code response c w =
    if code == 234
    then done ([], true, record c { tlsstate = tls_in_progress }, w)
    else done ([], false, c, w)
caught o catch_pasv code response c w =
    if code == 227 then caught_pasv o response c w else done ([], false, c, w)
caught o catch_epsv code response c w =
    if code == 229 then caught_epsv o response c w else done ([], false, c, w)
caught o catch_port code response c w = done (exhausted_response, false, c, w)
caught o catch_eprt code response c w =
    if is_origin_port c.origincatch
    then done (codes "200 PORT command successful." ++ crlf, false, c, w)
    else done (exhausted_response, false, c, w)

-- The end of `FDData`: the response goes to the client, and nothing is caught any more.
unfoldable pub replied : Outside → ℕ → Reply → BncSessionClient × World
unfolding to_client
replied o parent (modified, starttls, c, w) =
    let response = contents c.responseparser.buffer in
    let (c', w') = to_client o parent (if is_empty modified then response else modified) c w in
    let settled = record c' {
      responseparser = ResponseParser.reset c'.responseparser;
      responsecatch = no_catch;
      origincatch = no_origin;
    } in
    (
      settled,
      if starttls
          then calling (negotiate_ssl_connect (some c.sockid))
              (calling (negotiate_ssl_accept (some parent)) w')
          else w',
    )

abbrev pub answered :
    Outside
    → ℕ
    → BncSessionClient
    → World
    → Option (Bool × ResponseParser)
    → Outcome (BncSessionClient × World)
answered o parent c w none = endless
answered o parent c w (some (false, p)) = done (record c { responseparser = p }, w)
answered o parent c w (some (true, p)) = do
  reply ←
      caught o c.responsecatch p.databufcode (contents p.buffer) (record c { responseparser = p }) w
  done (replied o parent reply)

-- `parent` is the client's socket.
unfoldable pub fd_data :
    Outside → ℕ → Bytes → BncSessionClient → World → Outcome (BncSessionClient × World)
unfolding caught replied
fd_data o parent data_bytes c w =
    let parsed =
      answered o parent c w (ResponseParser.parse o.malloc c.responseparser data_bytes) in
    if c.traffic && is_caught c.responsecatch
    then parsed
    else done (to_client o parent data_bytes c w)
