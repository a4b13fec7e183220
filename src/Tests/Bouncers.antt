-- ===== src/Tests/Bouncers.antt =====
-- The sessions between a client and the site, at a site of IPv4 and one of IPv6.
use cbbncd.Base.{ℕ, ◌≡◌, ◌≢◌, refl, true, false, List, [], ◌∷◌, none, some, arith, ltb, ◌%◌, ◌+◌}
use cbbncd.Base.Int.{pos, ◌*ℤ◌, ◌+ℤ◌}
use cbbncd.Base.Text.{Bytes, codes, stoi, stol, to_int, find_from}
use cbbncd.Types.{ipv4, ipv6, no_family}
use cbbncd.Util.{find_text}
use cbbncd.Ftp.PasvString.{parsed, from_pasv_string, from_extended_pasv_string}
use cbbncd.Traffic.Sessions.{activate_any}
use cbbncd.Bnc.Client.{
  BncSessionClient, Outside, done, endless, tls_none, no_catch, catch_pasv, catch_epsv, no_origin,
  origin_pasv,
}
use cbbncd.Bnc.Client.Commands.{send_command}
use cbbncd.Bnc.Client.Commands.Ports.{send_command-Holds}
use cbbncd.Bnc.Client.Commands.Endings.{send_command_ends}
use cbbncd.Bnc.Client.Responses.{caught_pasv, caught_epsv, fd_data}
use cbbncd.Bnc.Client.Responses.Ports.{fd_data-Holds}
use cbbncd.Bnc.Client.Responses.Endings.{fd_data_ends}
use cbbncd.Bnc.Client.Brackets.{with_host}
use cbbncd.Bnc.Client.Bracketed.{bracketed}
use cbbncd.Bnc.Client.Replies.{
  PasvAnswer, caught_pasv-PasvAnswer, EpsvAnswer, caught_epsv-EpsvAnswer,
}
use cbbncd.Bnc.Client.Ledger.{Returns, Holds}
use cbbncd.Bnc.Ident.{Ident, told, cut_newlines}
use cbbncd.Bnc.Ident.Reading.{told-user}
use cbbncd.Traffic.World.{World}
use cbbncd.Bnc.Session.{Accepted, BncSession, disconnected, ident_state, ident}
use cbbncd.Bnc.Session.Events.{ident_data}
use cbbncd.Bnc.Session.Queue.{awaiting_ident, Announced, ident-Announced}
use cbbncd.Bnc.Session.Silence.{Silent, ident_data-Silent}
use cbbncd.Address.{Address}
use cbbncd.Bnc.Bouncer.{Bnc}
use cbbncd.Bnc.Bouncer.RoundRobin.{Arrival, accept_all, InTurn, accept_all-InTurn}
use cbbncd.Tests.Ports.{pool-Accounted, world, outside}
use cbbncd.Tests.Texts.{malloc, length-malloc, small_buffer-IsValid, commands, responses}

abbrev around : Outside
around = record { malloc = malloc; answers = outside; sent = true }

-- A client that is connected to a site of IPv4, whose ident is known.
abbrev client : BncSessionClient
client = record {
  sockid = 3;
  identstr = codes "joe@10.0.0.9:10.0.0.9";
  identreceived = true;
  paused = false;
  connected = true;
  commandparser = commands;
  responseparser = responses;
  responsecatch = no_catch;
  origincatch = no_origin;
  tlsstate = tls_none;
  parentcipher = [];
  cipher = [];
  tbncsessions = [];
  ifaddr4 = codes "10.0.0.1";
  ifaddr6 = codes "fe80::1";
  traffic = true;
  sitehost = codes "10.0.0.2";
  clientaddrfam = ipv4;
  siteaddrfam = ipv4;
  clientaddr = codes "10.0.0.9";
  siteifaddr = codes "10.0.0.1";
  noidnt = false;
}

abbrev on_pasv : BncSessionClient
on_pasv = record client { responsecatch = catch_pasv }

-- The client sent PASV, and the site of IPv6 was asked for EPSV.
abbrev on_epsv : BncSessionClient
on_epsv = record client {
  responsecatch = catch_epsv;
  origincatch = origin_pasv;
  siteaddrfam = ipv6;
  sitehost = codes "fe80::2";
}

send_command-Holds_example :
    Returns
      (λ r. Holds [] r.1 r.2)
      (send_command around (codes "PORT 10,0,0,9,7,208\r\n") client world)
send_command-Holds_example =
    send_command-Holds around (codes "PORT 10,0,0,9,7,208\r\n") client [] world
      (pool-Accounted, omega arith)

abbrev pasv_line : Bytes
pasv_line = codes "227 Entering Passive Mode (10,0,0,2,7,208)\r\n"

fd_data-Holds_example : Returns (λ r. Holds [] r.0 r.1) (fd_data around 4 pasv_line on_pasv world)
fd_data-Holds_example =
    fd_data-Holds around 4 pasv_line on_pasv [] world (pool-Accounted, omega arith)

reads_pasv : from_pasv_string (codes "10,0,0,2,7,208") ≡ parsed (codes "10.0.0.2", pos 2000)
unfolding from_pasv_string find_from stoi ◌*ℤ◌ ◌+ℤ◌
reads_pasv = refl

-- The form without the host.
reads_short_pasv :
    from_pasv_string (with_host (codes "10.0.0.2") (codes "1,7,208"))
    ≡ parsed (codes "10.0.0.2", pos 2000)
unfolding from_pasv_string with_host find_from stoi ◌*ℤ◌ ◌+ℤ◌
reads_short_pasv = refl

caught_pasv-PasvAnswer_example :
    PasvAnswer
      (codes "227 ok ")
      (codes "\r\n")
      on_pasv
      (activate_any outside ipv4 ipv4 (codes "10.0.0.2") (pos 2000) [] world)
      (caught_pasv around
        (bracketed (codes "227 ok ") (codes "1,7,208") (codes "\r\n"))
        on_pasv
        world)
caught_pasv-PasvAnswer_example =
    caught_pasv-PasvAnswer around (codes "227 ok ") (codes "1,7,208") (codes "\r\n")
      (codes "10.0.0.2") (pos 2000) on_pasv world
      (
        (refl, (refl, (refl, (refl, (refl, (refl, (refl, tt))))))),
        (refl, (refl, (refl, (refl, (refl, (refl, (refl, tt))))))),
        (refl, (refl, (refl, (refl, (refl, (refl, (refl, tt))))))),
      )
      reads_short_pasv

reads_epsv : from_extended_pasv_string (codes "|||2000|") ≡ parsed (no_family, [], pos 2000)
unfolding from_extended_pasv_string find_from stol to_int
reads_epsv = refl

caught_epsv-EpsvAnswer_example :
    EpsvAnswer
      (codes "229 ok ")
      (codes "\r\n")
      []
      (ipv4, codes "10.0.0.1")
      on_epsv
      (activate_any outside ipv4 ipv6 (codes "fe80::2") (pos 2000) [] world)
      (caught_epsv around
        (bracketed (codes "229 ok ") (codes "|||2000|") (codes "\r\n"))
        on_epsv
        world)
caught_epsv-EpsvAnswer_example =
    caught_epsv-EpsvAnswer around (codes "229 ok ") (codes "|||2000|") (codes "\r\n") [] no_family
      (pos 2000) on_epsv world
      (
        (refl, (refl, (refl, (refl, (refl, (refl, (refl, tt))))))),
        (refl, (refl, (refl, (refl, (refl, (refl, (refl, tt))))))),
        (refl, (refl, (refl, (refl, (refl, (refl, (refl, (refl, tt)))))))),
      )
      reads_epsv

send_command_ends_example : send_command around (codes "PASV\r\n") client world ≢ endless
send_command_ends_example =
    send_command_ends around length-malloc b'P' (codes "ASV\r\n") client world small_buffer-IsValid
      (omega arith)

fd_data_ends_example : fd_data around 4 (codes "234 ok\r\n") on_pasv world ≢ endless
fd_data_ends_example =
    fd_data_ends around length-malloc 4 b'2' (codes "34 ok\r\n") on_pasv world small_buffer-IsValid
      (omega arith)

abbrev session : BncSession
session = record {
  sessionclient = record client { identreceived = false };
  identp = none;
  noidnt = false;
  state = disconnected;
  listenport = 21;
  sockid = 4;
  srcaddr = codes "10.0.0.9";
  ifaddr4 = codes "10.0.0.1";
  ifaddr6 = [];
  paused = false;
  sendqueue = codes "AUTH TLS\r\n" ∷ codes "USER joe\r\n" ∷ codes "PASS x\r\n" ∷ [];
}

-- The site takes the first chunk and is full after the second.
abbrev slow : ℕ → Outside
slow behind = record around { sent = ltb 1 behind }

ident-Announced_example :
    Announced
      (codes "joe")
      (awaiting_ident session)
      world
      (ident slow (codes "joe") (awaiting_ident session) world)
ident-Announced_example = ident-Announced slow (codes "joe") session world

found_userid : find_text (codes "USERID") (codes "40, 21 : USERID : UNIX :  joe") 0 ≡ some 9
unfolding find_text
found_userid = refl

told-user_example : told (codes "40, 21 : USERID : UNIX :  joe\r\n") ≡ some (codes "joe")
told-user_example =
    told-user b'4' 9 2 b'j' (codes "0, 21 : USERID : UNIX ") (codes "oe") (codes "\r\n")
      found_userid refl (refl, (refl, (refl, tt))) refl (refl, (refl, tt))

found_alone : find_text (codes "USERID") (cut_newlines (codes "USERID\r\n")) 0 ≡ some 0
unfolding cut_newlines find_text
found_alone = refl

abbrev asked_ident : Ident
asked_ident = record { active = true; sockid = 5; sourceport = 40; targetport = 21 }

ident_data-Silent_example :
    Silent around
      (codes "USER joe\r\n")
      asked_ident
      (record session { state = ident_state })
      world
      (ident_data slow
        (codes "USERID\r\n")
        asked_ident
        (record session { state = ident_state })
        world)
ident_data-Silent_example =
    ident_data-Silent slow around (codes "USERID\r\n") (codes "USER joe\r\n") 0 asked_ident session
      world found_alone (refl, (refl, (refl, (refl, (refl, (refl, (refl, (refl, tt))))))))

abbrev site : ℕ → Address
site port = record { addrfam = ipv4; host = codes "10.0.0.2"; port = port; brackets = false }

abbrev sites : List Address
sites = site 21 ∷ site 22 ∷ site 23 ∷ []

-- Three clients, for whom new sessions are made, without an ident.
abbrev accepted : Accepted
accepted = record {
  source = codes "10.0.0.9";
  sourceaddrfam = ipv4;
  sourceport = 4000;
  interface4 = none;
  interface6 = none;
  site_sockid = 8;
  ident_sockid = 9;
}

abbrev arrivals : List Arrival
arrivals = (accepted, 6, session) ∷ (accepted, 7, session) ∷ (accepted, 10, session) ∷ []

abbrev bouncer : Bnc
bouncer = record { siteaddrs = sites; nextsiteaddr = 2; sessions = session ∷ [] }

accept_all-InTurn_example :
    (b' : Bnc) × (w' : World) × (accept_all arrivals bouncer world ≡ done (b', w'))
    × (b'.siteaddrs ≡ sites)
    × (b'.nextsiteaddr ≡ (2 + 3) % 3)
    × InTurn sites 2 arrivals [] w'.calls
accept_all-InTurn_example =
    accept_all-InTurn sites (session ∷ []) arrivals 2 world (omega arith) (refl, tt)
      (refl, (refl, (refl, tt)))
