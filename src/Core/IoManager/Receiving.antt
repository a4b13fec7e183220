-- ===== src/Core/IoManager/Receiving.antt =====
-- What a socket reads: handleTCPPlainIn, handleTCPSSLIn, handleUDPIn, handleExternalIn and
-- handleTCPServerIn of core/iomanager.cpp. `malloc` is that of the pool of the work manager.
use cbbncd.Base.{ℕ, ◌+◌, List, [], ◌∷◌, Bool, true, false, Option, none, some, ltb, if◌then◌else◌}
use cbbncd.Base.Text.{Bytes, codes}
use cbbncd.Types.{AddressFamily}
use cbbncd.Core.SocketInfo.{SocketInfo, new_socket, tcp_plain_listen}
use cbbncd.Core.Event.{low, normal}
use cbbncd.Core.DataBlockPool.{DataBlockPool, get_block, return_block}
use cbbncd.Core.WorkManager.{
  WorkManager, dispatch_fd_data, dispatch_fd_data_buf, dispatch_event_disconnected,
  dispatch_event_new,
}
use cbbncd.Core.IoManager.{IoManager, put, working, auto_pause, close_socket_intern}
use cbbncd.Core.IoManager.SslError.{
  DisconnectType, no_disconnect, graceful, disconnect_error, reason_number, SslFailure,
  Investigated, investigate_ssl_error,
}

abbrev pub pooled : DataBlockPool → IoManager → IoManager
pooled pool m = working (record (m.workmanager) { blockpool = pool }) m

-- `blockpool.returnBlock(buf)`.
abbrev pub give_back : ℕ → IoManager → IoManager
give_back buf m = pooled (return_block buf m.workmanager.blockpool) m

-- The event that the connection has ended, and the end of the socket.
abbrev pub end_connection : DisconnectType → Bytes → ℕ → SocketInfo → IoManager → IoManager
end_connection type errortext sockid s m = close_socket_intern sockid (
    working
      (dispatch_event_disconnected s.receiver sockid (reason_number type) errortext s.prio
        m.workmanager)
      m)

abbrev pub paused_unless : ℕ → SocketInfo → IoManager → Bool × WorkManager → IoManager
paused_unless sockid s m (true, w) = working w m
paused_unless sockid s m (false, w) = auto_pause sockid s (working w m)

-- The data of a block, and the pause if the worker does not keep up.
abbrev pub hand_over : ℕ → ℕ → ℕ → SocketInfo → IoManager → IoManager
hand_over buf len sockid s m =
    paused_unless sockid s m (dispatch_fd_data_buf s.receiver sockid buf len s.prio m.workmanager)

-- What `read` returns: a number of bytes that is not 0, 0, EAGAIN, or another error and its text.
pub data ReadResult : Type 0 where
  read_bytes : ℕ → ReadResult
  read_end : ReadResult
  read_again : ReadResult
  read_error : Bytes → ReadResult

abbrev pub plain_in : ReadResult → ℕ → ℕ → SocketInfo → IoManager → IoManager
plain_in (read_bytes n) buf sockid s m = hand_over buf n sockid s m
plain_in read_end buf sockid s m =
    end_connection graceful (codes "Connection closed by peer") sockid s (give_back buf m)
plain_in read_again buf sockid s m = give_back buf m
plain_in (read_error text) buf sockid s m =
    end_connection disconnect_error text sockid s (give_back buf m)

unfoldable pub handle_tcp_plain_in : (ℕ → ℕ) → ReadResult → ℕ → SocketInfo → IoManager → IoManager
handle_tcp_plain_in malloc result sockid s m =
    let (buf, pool) = get_block malloc m.workmanager.blockpool in
    plain_in result buf sockid s (pooled pool m)

-- The socket itself as `autoPause` leaves it.
abbrev pub pausing : Bool × WorkManager → SocketInfo → SocketInfo
pausing (true, w) s = s
pausing (false, w) s = record s { paused = true }

-- What follows SSL_read that failed, after the data before it was handed over or the block given
-- back.
abbrev pub end_by : Investigated → DisconnectType → ℕ → SocketInfo → IoManager → IoManager
end_by i no_disconnect sockid s m = m
end_by i type sockid s m =
    let s' = if i.forgets_shutdown then record s { sslshutdown = false } else s in
    end_connection type i.errortext sockid s' (put sockid (some s') m)

abbrev pub end_read : SslFailure → ℕ → SocketInfo → IoManager → IoManager
end_read f sockid s m = let i = investigate_ssl_error f in end_by i i.type sockid s m

abbrev pub ssl_in_failed : SslFailure → ℕ → ℕ → ℕ → SocketInfo → IoManager → IoManager
ssl_in_failed f buf bufpos sockid s m =
    let answer = dispatch_fd_data_buf s.receiver sockid buf bufpos s.prio m.workmanager in
    if ltb 0 bufpos
    then end_read f sockid (pausing answer s) (paused_unless sockid s m answer)
    else end_read f sockid s (give_back buf m)

-- The two loops of `handleTCPSSLIn`, for the numbers of bytes that SSL_read returns before it
-- fails. `pause` is set by a full block, but what reads it stands behind a loop that has no end.
unfoldable pub ssl_in :
    (ℕ → ℕ) → List ℕ → SslFailure → ℕ → ℕ → ℕ → ℕ → SocketInfo → IoManager → IoManager
ssl_in malloc [] f buf bufpos blocknum sockid s m = ssl_in_failed f buf bufpos sockid s m
ssl_in malloc (n ∷ reads) f buf bufpos blocknum sockid s m =
    let s' = if ltb 16 blocknum then record s { prio = low } else s in
    let m' = put sockid (some s') m in
    let answer = dispatch_fd_data_buf s'.receiver sockid buf (bufpos + n) s'.prio m'.workmanager in
    let (fresh, pool) = get_block malloc answer.1.blockpool in
    let more = ssl_in malloc reads f buf (bufpos + n) blocknum sockid s m in
    let next =
      ssl_in malloc reads f fresh 0 (blocknum + 1) sockid s' (pooled pool (working answer.1 m')) in
    if ltb (bufpos + n) 16384 then more else next

unfoldable pub handle_tcp_ssl_in :
    (ℕ → ℕ) → List ℕ → SslFailure → ℕ → SocketInfo → IoManager → IoManager
unfolding ssl_in
handle_tcp_ssl_in malloc reads f sockid s m =
    let (buf, pool) = get_block malloc m.workmanager.blockpool in
    ssl_in malloc reads f buf 0 0 sockid s (pooled pool m)

-- `handleUDPIn`, for what `recvfrom` returns; an error, -1, is passed on as a length too.
abbrev pub handle_udp_in : (ℕ → ℕ) → ℕ → ℕ → SocketInfo → IoManager → IoManager
handle_udp_in malloc n sockid s m =
    let (buf, pool) = get_block malloc m.workmanager.blockpool in
    let m' = pooled pool m in
    working (dispatch_fd_data_buf s.receiver sockid buf n s.prio m'.workmanager).1 m'

-- `handleExternalIn`, up to its wait for the worker.
abbrev pub handle_external_in : ℕ → SocketInfo → IoManager → IoManager
handle_external_in sockid s m = working (dispatch_fd_data s.receiver sockid m.workmanager) m

-- What `accept` and `getsockname` tell of a new connection.
pub record Accepted : Type 0 where
  pub new_fd : ℕ
  pub peer_addr : Bytes
  pub peer_port : ℕ
  pub own_addr : Bytes
  pub own_port : ℕ

abbrev pub accepted_socket : ℕ → AddressFamily → Accepted → SocketInfo
accepted_socket newsockid addrfam a = record new_socket {
  type = tcp_plain_listen;
  addrfam = addrfam;
  fd = some a.new_fd;
  id = some newsockid;
  addr = a.peer_addr;
  port = a.peer_port;
  localaddr = a.own_addr;
  localport = a.own_port;
}

-- None: `accept` failed.
abbrev pub handle_tcp_server_in : Option Accepted → ℕ → SocketInfo → IoManager → IoManager
handle_tcp_server_in none sockid s m = m
handle_tcp_server_in (some a) sockid s m =
    let newsockid = m.sockidcounter in
    let m' =
      put newsockid (some (accepted_socket newsockid s.addrfam a))
        (record m { sockidcounter = newsockid + 1 }) in
    paused_unless sockid s m' (dispatch_event_new s.receiver sockid newsockid normal m'.workmanager)
