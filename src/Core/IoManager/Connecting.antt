-- ===== src/Core/IoManager/Connecting.antt =====
-- How a socket connects: registerTCPClientSocket, resolveHost, asyncTaskComplete,
-- handleTCPNameResolution and handleTCPConnectingOut of core/iomanager.cpp. What the system answers
-- is an argument.
use cbbncd.Base.{
  ℕ, ◌+◌, [], ◌∷◌, Bool, true, false, not, ◌&&◌, ◌||◌, Option, none, some, ◌==◌, if◌then◌else◌,
}
use cbbncd.Base.Text.{Bytes}
use cbbncd.Types.{AddressFamily, is_ipv4, is_ipv6}
use cbbncd.Core.SocketInfo.{SocketInfo, new_socket, tcp_resolving, tcp_connecting, tcp_plain}
use cbbncd.Core.Event.{normal, minus_one}
use cbbncd.Core.WorkManager.{
  async_task, dispatch_event_fail, dispatch_event_connecting, dispatch_event_connected,
}
use cbbncd.Core.IoManager.{
  IoManager, freeaddrinfo, calling, put, working, poll_write, set_poll_read, unset_poll, erase_key,
  close_socket_intern, has_nothing,
}

-- A result with a text, or an error (core/types.h).
pub data StringResult : Type 0 where
  success : Bytes → StringResult
  failure : Bytes → StringResult

-- A call of the system: it succeeds, fails with EINPROGRESS, or with another error and its text.
pub data SysResult : Type 0 where
  succeeds : SysResult
  in_progress : SysResult
  sys_error : Bytes → SysResult

-- What getaddrinfo answers: a result with its family and address, EAI_NONAME, or another number.
pub data Resolved : Type 0 where
  resolved : ℕ → AddressFamily → Resolved
  no_name : ℕ → Bytes → Resolved
  gai_error : ℕ → Bytes → Resolved

pub data ResolverResult : Type 0 where
  resolver_success : ResolverResult
  would_block : ResolverResult
  sockid_non_existing : ResolverResult

abbrev pub has_family : AddressFamily → Bool
has_family family_of = is_ipv4 family_of || is_ipv6 family_of

abbrev pub answer_found : Bool → Resolved → ℕ → SocketInfo → IoManager → ResolverResult × IoManager
answer_found mayblock (resolved info addrfam) sockid s m = (
  resolver_success,
  put sockid
      (some (record s {
        gairet = 0;
        gaires = some info;
        addrfam = if has_family s.addrfam then s.addrfam else addrfam;
      }))
      m,
)
answer_found false (no_name number text) sockid s m =
    (would_block, put sockid (some (record s { gairet = number; gaiasync = true })) m)
answer_found true (no_name number text) sockid s m =
    (resolver_success, put sockid (some (record s { gairet = number; gaierr = text })) m)
answer_found mayblock (gai_error number text) sockid s m =
    (resolver_success, put sockid (some (record s { gairet = number; gaierr = text })) m)

abbrev pub freed_answer : Resolved → IoManager → IoManager
freed_answer (resolved info addrfam) m = calling (freeaddrinfo info) m
freed_answer (no_name number text) m = m
freed_answer (gai_error number text) m = m

-- After the wait for getaddrinfo.
abbrev pub resolve_after :
    Bool → Resolved → ℕ → Option SocketInfo → IoManager → ResolverResult × IoManager
resolve_after mayblock answer sockid none m = (sockid_non_existing, freed_answer answer m)
resolve_after mayblock answer sockid (some s) m = answer_found mayblock answer sockid s m

-- `resolveHost`. While getaddrinfo runs, others change the manager as `meanwhile` does.
abbrev pub resolve_found :
    (IoManager → IoManager)
    → Bool
    → Resolved
    → ℕ
    → Option SocketInfo
    → IoManager
    → ResolverResult × IoManager
resolve_found meanwhile mayblock answer sockid none m = (sockid_non_existing, m)
resolve_found meanwhile mayblock answer sockid (some s) m =
    let m' = meanwhile m in resolve_after mayblock answer sockid (m'.socketinfomap sockid) m'

abbrev pub resolve_host :
    (IoManager → IoManager) → Bool → Resolved → ℕ → IoManager → ResolverResult × IoManager
resolve_host meanwhile mayblock answer sockid m =
    resolve_found meanwhile mayblock answer sockid (m.socketinfomap sockid) m

-- `handleError`.
abbrev pub handle_error : SysResult → Option ℕ → ℕ → IoManager → Bool × IoManager
handle_error succeeds er sockid m = (true, m)
handle_error in_progress er sockid m = (true, m)
handle_error (sys_error text) er sockid m =
    (false, working (dispatch_event_fail er sockid text normal m.workmanager) m)

-- What the system answers while a socket is connected: `socket`, the address to bind to, the
-- getaddrinfo for it, `bind` and `connect`; with the descriptor and the address as a text.
pub record Attempt : Type 0 where
  pub socket_result : SysResult
  pub sockfd : Option ℕ
  pub shown_addr : Bytes
  pub bindto : StringResult
  pub bind_info : Option Bytes
  pub bind_result : SysResult
  pub connect_result : SysResult

-- A step that may fail, after which the socket is closed.
abbrev pub or_close : Bool × IoManager → ℕ → (IoManager → IoManager) → IoManager
or_close (true, m) sockid go_on = go_on m
or_close (false, m) sockid go_on = close_socket_intern sockid m

abbrev pub told_fail : Option ℕ → ℕ → Bytes → IoManager → IoManager
told_fail er sockid text m = working (dispatch_event_fail er sockid text normal m.workmanager) m

-- After `connect` has succeeded or is in progress; `s` is the socket with no address info.
abbrev pub connect_begun : ℕ → SocketInfo → IoManager → IoManager
connect_begun sockid s m = poll_write sockid s (
    if s.gaiasync && not s.closing
    then working (dispatch_event_connecting s.receiver sockid s.addr normal m.workmanager) m
    else m)

abbrev pub freed_info : Option ℕ → IoManager → IoManager
freed_info none m = m
freed_info (some info) m = calling (freeaddrinfo info) m

abbrev pub connect_socket : Attempt → ℕ → SocketInfo → IoManager → IoManager
connect_socket a sockid s m =
    let s' = record s { gaires = none } in
    let m' = put sockid (some s') (freed_info s.gaires m) in
    or_close (handle_error a.connect_result s'.receiver sockid m') sockid (connect_begun sockid s')

abbrev pub bind_to_info : Attempt → Option Bytes → ℕ → SocketInfo → IoManager → IoManager
bind_to_info a (some text) sockid s m =
    close_socket_intern sockid (told_fail s.receiver sockid text m)
bind_to_info a none sockid s m =
    or_close (handle_error a.bind_result s.receiver sockid m) sockid (connect_socket a sockid s)

abbrev pub bind_socket : Attempt → StringResult → ℕ → SocketInfo → IoManager → IoManager
bind_socket a (failure text) sockid s m =
    close_socket_intern sockid (told_fail s.receiver sockid text m)
bind_socket a (success []) sockid s m = connect_socket a sockid s m
bind_socket a (success (b ∷ address)) sockid s m = bind_to_info a a.bind_info sockid s m

abbrev pub set_time : ℕ → Option ℕ → IoManager → IoManager
set_time sockid time m = record m {
  connecttimemap = (sockid, time) ∷ erase_key sockid m.connecttimemap;
}

abbrev pub socket_made : Attempt → ℕ → SocketInfo → IoManager → IoManager
socket_made a sockid s m =
    let s' = record s { fd = a.sockfd; type = tcp_connecting; addr = a.shown_addr } in
    bind_socket a a.bindto sockid s' (set_time sockid (some 0) (put sockid (some s') m))

-- `handleTCPNameResolution`.
abbrev pub handle_tcp_name_resolution : Attempt → ℕ → SocketInfo → IoManager → IoManager
handle_tcp_name_resolution a sockid s m =
    if not (s.gairet == 0)
    then close_socket_intern sockid
        (if not s.closing then told_fail s.receiver minus_one s.gaierr m else m)
    else or_close (handle_error a.socket_result s.receiver sockid m) sockid (socket_made a sockid s)

abbrev pub resolved_found : Attempt → ℕ → Option SocketInfo → IoManager → IoManager
resolved_found a sockid none m = m
resolved_found a sockid (some s) m = handle_tcp_name_resolution a sockid s m

-- `asyncTaskComplete`, for a task of host resolution and a socket that is still being resolved, as
-- the assertions want.
abbrev pub async_task_complete : Attempt → ℕ → IoManager → IoManager
async_task_complete a sockid m = resolved_found a sockid (m.socketinfomap sockid) m

abbrev pub resolving_socket : ℕ → Option ℕ → Bytes → ℕ → AddressFamily → Bool → SocketInfo
resolving_socket sockid er addr port addrfam listenimmediately = record new_socket {
  id = some sockid;
  addrfam = addrfam;
  addr = addr;
  port = port;
  type = tcp_resolving;
  receiver = er;
  listenimmediately = listenimmediately;
}

-- The IOManager as a receiver, and the task function `resolveHostAsync`, by their numbers.
abbrev pub register_resolved :
    ℕ → ℕ → Attempt → ℕ → ResolverResult × IoManager → Bool × ℕ × IoManager
register_resolved self task a sockid (resolver_success, m) =
    (false, sockid, resolved_found a sockid (m.socketinfomap sockid) m)
register_resolved self task a sockid (would_block, m) =
    (true, sockid, working (async_task self 0 task sockid m.workmanager) m)
register_resolved self task a sockid (sockid_non_existing, m) = (false, sockid, m)

-- `registerTCPClientSocket`: whether a name is being resolved, and the new socket.
abbrev pub register_tcp_client_socket :
    ℕ
    → ℕ
    → (IoManager → IoManager)
    → Resolved
    → Attempt
    → Option ℕ
    → Bytes
    → ℕ
    → AddressFamily
    → Bool
    → IoManager
    → Bool × ℕ × IoManager
register_tcp_client_socket self task meanwhile answer a er addr port addrfam listenimmediately m =
    let sockid = m.sockidcounter in
    let s = resolving_socket sockid er addr port addrfam listenimmediately in
    let m' =
      set_time sockid (some 0) (put sockid (some s) (record m { sockidcounter = sockid + 1 })) in
    register_resolved self task a sockid (resolve_host meanwhile false answer sockid m')

-- What getsockopt and getsockname tell: an error, or the own address and port.
pub data Connected : Type 0 where
  connect_failed : Bytes → Connected
  connect_done : Bytes → ℕ → Connected

abbrev pub connected_on : ℕ → SocketInfo → IoManager → IoManager
connected_on sockid s m =
    if s.closing && (has_nothing s.sendqueue || not s.listenimmediately)
    then close_socket_intern sockid m
    else if s.listenimmediately
    then if has_nothing s.sendqueue then set_poll_read sockid s m else m
    else unset_poll s m

-- `handleTCPConnectingOut`.
abbrev pub handle_tcp_connecting_out : Connected → ℕ → SocketInfo → IoManager → IoManager
handle_tcp_connecting_out (connect_failed text) sockid s m =
    close_socket_intern sockid (if not s.closing then told_fail s.receiver sockid text m else m)
handle_tcp_connecting_out (connect_done addr port) sockid s m =
    let s' = record s { localaddr = addr; localport = port; type = tcp_plain } in
    let m1 = record (put sockid (some s') m) {
      connecttimemap = erase_key sockid m.connecttimemap;
    } in
    connected_on sockid s' (
      if not s.closing
      then working (dispatch_event_connected s.receiver sockid normal m1.workmanager) m1
      else m1)
