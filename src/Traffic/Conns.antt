-- ===== src/Traffic/Conns.antt =====
-- bnc/pasvlistener.cpp, bnc/pasvconn.cpp and bnc/portconn.cpp: the listener and the two connections
-- of one transfer. What they report to their session is in Session. Tags and peer addresses, which
-- only log lines read, are left out.
use cbbncd.Base.{ℕ, Bool, true, false, List, [], ◌∷◌, ◌++◌, Option, none, some, if◌then◌else◌}
use cbbncd.Base.Int.{ℤ}
use cbbncd.Base.Text.{Bytes}
use cbbncd.Types.{AddressFamily}
use cbbncd.Traffic.World.{
  register_tcp_server_socket, register_tcp_client_socket, register_tcp_server_client_socket, pause,
  resume, send_data, World, calling, close_if_open,
}

pub record PasvListener : Type 0 where
  pub listenport : ℕ
  pub sockid : Option ℕ
  pub failedlistenports : List ℕ

abbrev pub disconnect_listener : PasvListener → World → PasvListener × World
disconnect_listener l w = (record l { sockid = none }, close_if_open l.sockid w)

abbrev pub bound : PasvListener → Option ℕ → ℕ → PasvListener
bound l none port = record l {
  listenport = port;
  sockid = none;
  failedlistenports = l.failedlistenports ++ port ∷ [];
}
bound l (some sockid) port = record l { listenport = port; sockid = some sockid }

abbrev pub is_open : Option ℕ → Bool
is_open none = false
is_open (some sockid) = true

-- `registered` is what `registerTCPServerSocket` returns. The result is that of `listen`.
unfoldable pub listen :
    Option ℕ → AddressFamily → ℕ → PasvListener → World → Bool × PasvListener × World
listen registered addrfam port l w =
    let (l', w') = disconnect_listener l w in
    (
      is_open registered,
      bound l' registered port,
      calling (register_tcp_server_socket port addrfam) w',
    )

abbrev tail_of : List ℕ → List ℕ
tail_of [] = []
tail_of (x ∷ xs) = xs

-- `FDFail`: it takes a port off the failed ones for the log. The last line sets the parameter
-- `sockid`, not the member.
unfoldable pub listener_fd_fail : PasvListener → PasvListener
listener_fd_fail l = record l { failedlistenports = tail_of l.failedlistenports }

pub record PasvConn : Type 0 where
  pub sockid : Option ℕ
  pub paused : Bool

abbrev pub activate_pasv : ℕ → PasvConn → World → PasvConn × World
activate_pasv newsockid c w = (
  record { sockid = some newsockid; paused = false },
  calling (register_tcp_server_client_socket newsockid false) w,
)

abbrev pub start_polling : PasvConn → World → World
start_polling c w = calling (resume c.sockid) w

abbrev pub send_pasv : Bytes → PasvConn → World → World
send_pasv bytes c w = calling (send_data c.sockid bytes) w

abbrev pub disconnect_pasv : PasvConn → World → PasvConn × World
disconnect_pasv c w = (record c { sockid = none }, close_if_open c.sockid w)

unfoldable pub pause_pasv : PasvConn → World → PasvConn × World
pause_pasv c w =
    if c.paused then (c, w) else (record c { paused = true }, calling (pause c.sockid) w)

unfoldable pub resume_pasv : PasvConn → World → PasvConn × World
resume_pasv c w =
    if c.paused then (record c { paused = false }, calling (resume c.sockid) w) else (c, w)

pub record PortConn : Type 0 where
  pub sockid : Option ℕ
  pub addrfam : AddressFamily
  pub host : Bytes
  pub port : ℤ
  pub paused : Bool

-- `newsockid` is what `registerTCPClientSocket` returns.
abbrev pub activate_port : ℕ → AddressFamily → Bytes → ℤ → PortConn → World → PortConn × World
activate_port newsockid addrfam host port c w = (
  record { sockid = some newsockid; addrfam = addrfam; host = host; port = port; paused = false },
  calling (register_tcp_client_socket host port addrfam) w,
)

abbrev pub send_port : Bytes → PortConn → World → World
send_port bytes c w = calling (send_data c.sockid bytes) w

abbrev pub disconnect_port : PortConn → World → PortConn × World
disconnect_port c w = (record c { sockid = none }, close_if_open c.sockid w)

unfoldable pub pause_port : PortConn → World → PortConn × World
pause_port c w =
    if c.paused then (c, w) else (record c { paused = true }, calling (pause c.sockid) w)

unfoldable pub resume_port : PortConn → World → PortConn × World
resume_port c w =
    if c.paused then (record c { paused = false }, calling (resume c.sockid) w) else (c, w)
