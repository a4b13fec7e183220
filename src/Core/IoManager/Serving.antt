-- ===== src/Core/IoManager/Serving.antt =====
-- The sockets that are registered at once, in core/iomanager.cpp: registerTCPServerSocket and the
-- others, adopt, preStop and stop. What the system answers is an argument.
use cbbncd.Base.{ℕ, ◌+◌, List, [], ◌∷◌, Bool, true, false, Option, none, some, if◌then◌else◌}
use cbbncd.Base.Text.{Bytes}
use cbbncd.Types.{AddressFamily, no_family}
use cbbncd.Core.SocketInfo.{
  SocketInfo, SocketType, new_socket, tcp_server, tcp_server_external, external, udp, stop,
}
use cbbncd.Core.Event.{normal, minus_one}
use cbbncd.Core.WorkManager.{dispatch_event_fail}
use cbbncd.Core.IoManager.{
  IoManager, close_fd, calling, put, working, poll_read, poll_write, close_socket_intern,
}
use cbbncd.Core.IoManager.Connecting.{StringResult, success, failure, SysResult, handle_error}

-- A socket with the next number, which is polled for input.
abbrev pub register_as :
    SocketType → Option ℕ → ℕ → AddressFamily → IoManager → Option ℕ × IoManager
register_as type er fd addrfam m =
    let sockid = m.sockidcounter in
    let s = record new_socket {
      fd = some fd;
      addrfam = addrfam;
      id = some sockid;
      type = type;
      receiver = er;
    } in
    (
      some sockid,
      poll_read sockid s (put sockid (some s) (record m { sockidcounter = sockid + 1 })),
    )

-- What the system answers to a server socket: the address to bind to, an error of getaddrinfo, the
-- descriptor, and the results of `bind` and `listen`.
pub record Service : Type 0 where
  pub bindto : StringResult
  pub gai_error : Option Bytes
  pub sockfd : ℕ
  pub bind_result : SysResult
  pub listen_result : SysResult

abbrev pub fail_register : Option ℕ → Bytes → IoManager → Option ℕ × IoManager
fail_register er text m =
    (none, working (dispatch_event_fail er minus_one text normal m.workmanager) m)

-- A step after which the descriptor is closed if it fails.
abbrev pub or_close_fd :
    Bool × IoManager → ℕ → (IoManager → Option ℕ × IoManager) → Option ℕ × IoManager
or_close_fd (true, m) sockfd go_on = go_on m
or_close_fd (false, m) sockfd go_on = (none, calling (close_fd (some sockfd)) m)

abbrev pub serve_at :
    Option Bytes → Service → Option ℕ → AddressFamily → IoManager → Option ℕ × IoManager
serve_at (some text) v er addrfam m = fail_register er text m
serve_at none v er addrfam m =
    or_close_fd (handle_error v.bind_result er minus_one m) v.sockfd (λ m1.
      or_close_fd (handle_error v.listen_result er minus_one m1) v.sockfd
        (register_as tcp_server er v.sockfd addrfam))

abbrev pub serve_on :
    StringResult → Service → Option ℕ → AddressFamily → IoManager → Option ℕ × IoManager
serve_on (failure text) v er addrfam m = fail_register er text m
serve_on (success address) v er addrfam m = serve_at v.gai_error v er addrfam m

-- `registerTCPServerSocket`. None: -1.
abbrev pub register_tcp_server_socket :
    Service → Option ℕ → AddressFamily → IoManager → Option ℕ × IoManager
register_tcp_server_socket v er addrfam m = serve_on v.bindto v er addrfam m

abbrev pub register_tcp_server_socket_external_fd :
    Option ℕ → ℕ → AddressFamily → IoManager → Option ℕ × IoManager
register_tcp_server_socket_external_fd er sockfd addrfam m =
    register_as tcp_server_external er sockfd addrfam m

abbrev pub register_external_fd : Option ℕ → ℕ → IoManager → Option ℕ × IoManager
register_external_fd er fd m = register_as external er fd no_family m

abbrev pub udp_at :
    Option Bytes → Service → Option ℕ → AddressFamily → IoManager → Option ℕ × IoManager
udp_at (some text) v er addrfam m = fail_register er text m
udp_at none v er addrfam m =
    or_close_fd (handle_error v.bind_result er minus_one m) v.sockfd
      (register_as udp er v.sockfd addrfam)

abbrev pub register_udp_server_socket :
    Service → Option ℕ → AddressFamily → IoManager → Option ℕ × IoManager
register_udp_server_socket v er addrfam m = udp_at v.gai_error v er addrfam m

-- `socketinfomap[sockid]`, which makes an entry where there is none.
abbrev pub found_or_new : Option SocketInfo → SocketInfo
found_or_new none = new_socket
found_or_new (some s) = s

abbrev pub register_tcp_server_client_socket : Option ℕ → ℕ → Bool → IoManager → IoManager
register_tcp_server_client_socket er sockid listenimmediately m =
    let s = record (found_or_new (m.socketinfomap sockid)) {
      receiver = er;
      listenimmediately = listenimmediately;
    } in
    let m' = put sockid (some s) m in if listenimmediately then poll_read sockid s m' else m'

abbrev pub adopt : Option ℕ → ℕ → IoManager → IoManager
adopt er sockid m =
    put sockid (some (record (found_or_new (m.socketinfomap sockid)) { receiver = er })) m

-- `preStop`, for the two ends of a pipe; the stop of the timer is left out.
abbrev pub pre_stop : ℕ → ℕ → IoManager → IoManager
pre_stop reader writer m =
    let sockid = m.sockidcounter in
    let s = record new_socket {
      fd = some writer;
      addrfam = no_family;
      id = some sockid;
      type = stop;
    } in
    poll_write sockid s (
      put sockid (some s)
        (record (calling (close_fd (some reader)) m) { sockidcounter = sockid + 1 }))

-- The first loop of `stop`, in the order in which the map has its sockets; what the other loop
-- calls, clearSession, is in Asking.
abbrev pub stop_sockets : List ℕ → IoManager → IoManager
stop_sockets [] m = m
stop_sockets (sockid ∷ sockids) m = stop_sockets sockids (close_socket_intern sockid m)
