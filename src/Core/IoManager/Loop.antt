-- ===== src/Core/IoManager/Loop.antt =====
-- IOManager::run: what an event of a descriptor leads to. `SocketType` decides.
use cbbncd.Base.{ℕ, List, true, Option, none, some}
use cbbncd.Core.SocketInfo.{
  SocketInfo, SocketType, unused, external, tcp_plain, tcp_ssl, udp, tcp_server,
  tcp_server_external, tcp_plain_listen, tcp_ssl_neg_connect, tcp_ssl_neg_redo_connect,
  tcp_ssl_neg_accept, tcp_ssl_neg_redo_accept, tcp_connecting, tcp_resolving, stop,
}
use cbbncd.Core.IoManager.{IoManager}
use cbbncd.Core.IoManager.SslError.{SslFailure}
use cbbncd.Core.IoManager.Sending.{Written, SslWritten, handle_tcp_plain_out, handle_tcp_ssl_out}
use cbbncd.Core.IoManager.Receiving.{
  ReadResult, handle_tcp_plain_in, handle_tcp_ssl_in, handle_udp_in, handle_external_in, Accepted,
  handle_tcp_server_in,
}
use cbbncd.Core.IoManager.Negotiation.{
  Handshake, handle_tcp_ssl_negotiation_in, handle_tcp_ssl_negotiation_out,
}
use cbbncd.Core.IoManager.Connecting.{Connected, handle_tcp_connecting_out}

-- PollEventType, of core/polling.h.
pub data PollEventType : Type 0 where
  unknown_event : PollEventType
  in_event : PollEventType
  out_event : PollEventType

-- What the system and OpenSSL answer to the handlers.
pub record Answers : Type 0 where
  pub malloc : ℕ → ℕ
  pub read : ReadResult
  pub write : ℕ → Written
  pub ssl_reads : List ℕ
  pub ssl_end : SslFailure
  pub ssl_write : ℕ → SslWritten
  pub new_ssl : ℕ
  pub handshake : Handshake
  pub received : ℕ
  pub accepted : Option Accepted
  pub connected : Connected

-- An event leads to another state; it ends the thread; an assertion fails; or what follows is
-- undefined.
pub data Handled : Type 0 where
  handled : IoManager → Handled
  thread_ends : Handled
  asserts : Handled
  not_defined : Handled

abbrev pub or_not_defined : Option IoManager → Handled
or_not_defined none = not_defined
or_not_defined (some m) = handled m

-- The switch.
abbrev pub handle_type : Answers → SocketType → PollEventType → ℕ → SocketInfo → IoManager → Handled
handle_type a external event sockid s m = handled (handle_external_in sockid s m)
handle_type a tcp_connecting out_event sockid s m =
    handled (handle_tcp_connecting_out a.connected sockid s m)
handle_type a tcp_connecting event sockid s m = handled m
handle_type a tcp_plain in_event sockid s m =
    handled (handle_tcp_plain_in a.malloc a.read sockid s m)
handle_type a tcp_plain out_event sockid s m =
    handled (handle_tcp_plain_out a.write true sockid s m)
handle_type a tcp_plain event sockid s m = handled m
handle_type a tcp_plain_listen in_event sockid s m =
    handled (handle_tcp_plain_in a.malloc a.read sockid s m)
handle_type a tcp_plain_listen out_event sockid s m =
    handled (handle_tcp_plain_out a.write true sockid s m)
handle_type a tcp_plain_listen event sockid s m = handled m
handle_type a tcp_ssl_neg_connect out_event sockid s m =
    or_not_defined (handle_tcp_ssl_negotiation_out a.write a.new_ssl a.handshake sockid s m)
handle_type a tcp_ssl_neg_connect event sockid s m = handled m
handle_type a tcp_ssl_neg_accept out_event sockid s m =
    or_not_defined (handle_tcp_ssl_negotiation_out a.write a.new_ssl a.handshake sockid s m)
handle_type a tcp_ssl_neg_accept event sockid s m = handled m
handle_type a tcp_ssl_neg_redo_connect in_event sockid s m =
    handled (handle_tcp_ssl_negotiation_in a.handshake sockid s m)
handle_type a tcp_ssl_neg_redo_connect event sockid s m = handled m
handle_type a tcp_ssl_neg_redo_accept in_event sockid s m =
    handled (handle_tcp_ssl_negotiation_in a.handshake sockid s m)
handle_type a tcp_ssl_neg_redo_accept event sockid s m = handled m
handle_type a tcp_ssl in_event sockid s m =
    handled (handle_tcp_ssl_in a.malloc a.ssl_reads a.ssl_end sockid s m)
handle_type a tcp_ssl out_event sockid s m = handled (handle_tcp_ssl_out a.ssl_write sockid s m)
handle_type a tcp_ssl event sockid s m = handled m
handle_type a udp in_event sockid s m = handled (handle_udp_in a.malloc a.received sockid s m)
handle_type a udp event sockid s m = handled m
handle_type a tcp_server in_event sockid s m = handled (handle_tcp_server_in a.accepted sockid s m)
handle_type a tcp_server event sockid s m = handled m
handle_type a tcp_server_external in_event sockid s m =
    handled (handle_tcp_server_in a.accepted sockid s m)
handle_type a tcp_server_external event sockid s m = handled m
handle_type a stop event sockid s m = thread_ends
handle_type a tcp_resolving event sockid s m = asserts
handle_type a unused event sockid s m = asserts

abbrev pub handle_found : Answers → PollEventType → ℕ → Option SocketInfo → IoManager → Handled
handle_found a event sockid none m = handled m
handle_found a event sockid (some s) m = handle_type a s.type event sockid s m

-- One round of the loop over the events.
abbrev pub handle_event : Answers → PollEventType → ℕ → IoManager → Handled
handle_event a event sockid m = handle_found a event sockid (m.socketinfomap sockid) m
