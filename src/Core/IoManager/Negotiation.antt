-- ===== src/Core/IoManager/Negotiation.antt =====
-- How a socket begins TLS: negotiateSSLConnect and the like, and their handlers in
-- core/iomanager.cpp. What OpenSSL answers is an argument.
use cbbncd.Base.{ℕ, Bool, true, false, not, Option, none, some, if◌then◌else◌}
use cbbncd.Base.Text.{Bytes}
use cbbncd.Core.SocketInfo.{
  SocketType, SocketInfo, tcp_plain, tcp_plain_listen, tcp_ssl, tcp_ssl_neg_connect,
  tcp_ssl_neg_redo_connect, tcp_ssl_neg_accept, tcp_ssl_neg_redo_accept,
}
use cbbncd.Core.WorkManager.{dispatch_event_disconnected, dispatch_event_ssl_success}
use cbbncd.Core.IoManager.{
  IoManager, put, working, poll_write, set_poll_write, set_poll_read, close_socket_intern,
  has_nothing,
}
use cbbncd.Core.IoManager.SslError.{
  DisconnectType, no_disconnect, reason_number, SslFailure, Investigated, investigate_ssl_error,
}
use cbbncd.Core.IoManager.Sending.{Written, handle_tcp_plain_out}

abbrev pub is_plain_type : SocketType → Bool
is_plain_type tcp_plain = true
is_plain_type tcp_plain_listen = true
is_plain_type type = false

abbrev pub begin_poll : ℕ → SocketInfo → IoManager → IoManager
begin_poll sockid s m =
    if s.listenimmediately then set_poll_write sockid s m else poll_write sockid s m

abbrev pub negotiate : (SocketInfo → SocketInfo) → ℕ → Option SocketInfo → IoManager → IoManager
negotiate change sockid none m = m
negotiate change sockid (some s) m =
    let s' = change s in
    if is_plain_type s.type then begin_poll sockid s' (put sockid (some s') m) else m

abbrev pub negotiate_ssl_connect : ℕ → Option ℕ → IoManager → IoManager
negotiate_ssl_connect sockid sessionkey m =
    negotiate (λ s. record s { type = tcp_ssl_neg_connect; sessionkey = sessionkey }) sockid
      (m.socketinfomap sockid) m

abbrev pub negotiate_ssl_connect_parent : ℕ → Option ℕ → IoManager → IoManager
negotiate_ssl_connect_parent sockid parentsockid m =
    negotiate (λ s. record s { type = tcp_ssl_neg_connect; parentid = parentsockid }) sockid
      (m.socketinfomap sockid) m

abbrev pub negotiate_ssl_accept : ℕ → IoManager → IoManager
negotiate_ssl_accept sockid m =
    negotiate (λ s. record s { type = tcp_ssl_neg_accept }) sockid (m.socketinfomap sockid) m

-- What SSL_connect and the like return: they succeed with a cipher, or fail.
pub data Handshake : Type 0 where
  shaken : Bytes → Handshake
  not_shaken : SslFailure → Handshake

abbrev pub succeed : Bytes → ℕ → SocketInfo → IoManager → IoManager
succeed cipher sockid s m =
    if not s.closing
    then working (dispatch_event_ssl_success s.receiver sockid cipher s.prio m.workmanager) m
    else m

-- The handshake has failed for good.
abbrev pub give_up : Investigated → DisconnectType → ℕ → SocketInfo → IoManager → IoManager
give_up i type sockid s m =
    let s' = if i.forgets_shutdown then record s { sslshutdown = false } else s in
    let m' = put sockid (some s') m in
    close_socket_intern sockid (
      if not s.closing
      then working
          (dispatch_event_disconnected s.receiver sockid (reason_number type) i.errortext s.prio
            m'.workmanager)
          m'
      else m')

abbrev pub later_in : Investigated → DisconnectType → ℕ → SocketInfo → IoManager → IoManager
later_in i no_disconnect sockid s m = m
later_in i type sockid s m = give_up i type sockid s m

abbrev pub negotiation_in : Handshake → ℕ → SocketInfo → IoManager → IoManager
negotiation_in (shaken cipher) sockid s m =
    let s' = record s { type = tcp_ssl } in
    let m' = succeed cipher sockid s' (put sockid (some s') m) in
    if not (has_nothing s.sendqueue) then set_poll_write sockid s' m' else m'
negotiation_in (not_shaken f) sockid s m =
    let i = investigate_ssl_error f in later_in i i.type sockid s m

-- `handleTCPSSLNegotiationIn`.
abbrev pub handle_tcp_ssl_negotiation_in : Handshake → ℕ → SocketInfo → IoManager → IoManager
handle_tcp_ssl_negotiation_in h sockid s m = negotiation_in h sockid s m

abbrev pub redone : SocketType → SocketType
redone tcp_ssl_neg_connect = tcp_ssl_neg_redo_connect
redone type = tcp_ssl_neg_redo_accept

abbrev pub later_out : Investigated → DisconnectType → ℕ → SocketInfo → IoManager → IoManager
later_out i no_disconnect sockid s m =
    let s' = record s { type = redone s.type } in set_poll_read sockid s' (put sockid (some s') m)
later_out i type sockid s m = give_up i type sockid s m

abbrev pub negotiation_out : Handshake → ℕ → SocketInfo → IoManager → IoManager
negotiation_out (shaken cipher) sockid s m =
    let s' = record s { type = tcp_ssl } in
    let m' = succeed cipher sockid s' (put sockid (some s') m) in
    if not (has_nothing s.sendqueue) then m' else set_poll_read sockid s' m'
negotiation_out (not_shaken f) sockid s m =
    let i = investigate_ssl_error f in later_out i i.type sockid s m

-- The socket gets the new SSL object.
abbrev pub with_ssl : ℕ → Handshake → ℕ → Option SocketInfo → IoManager → Option IoManager
with_ssl ssl h sockid none m = none
with_ssl ssl h sockid (some s) m =
    let s' = record s { ssl = some ssl } in
    some (negotiation_out h sockid s' (put sockid (some s') m))

-- `handleTCPSSLNegotiationOut`, for the object that SSL_new returns. None: what waited could not be
-- written, the socket was closed, and the function goes on with it, which is undefined. The
-- sessions that are set in the object are not followed.
abbrev pub handle_tcp_ssl_negotiation_out :
    (ℕ → Written) → ℕ → Handshake → ℕ → SocketInfo → IoManager → Option IoManager
handle_tcp_ssl_negotiation_out write ssl h sockid s m =
    let m' =
      if not (has_nothing s.sendqueue) then handle_tcp_plain_out write false sockid s m else m in
    with_ssl ssl h sockid (m'.socketinfomap sockid) m'
