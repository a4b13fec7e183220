-- ===== src/Traffic/Session.antt =====
-- bnc/trafficbncsession.cpp: one transfer, and the reports of its listener and its connections.
pub mod Bind
use cbbncd.Base.{
  ℕ, zero, suc, ◌+◌, Bool, true, false, List, [], ◌∷◌, ◌++◌, Option, none, some, ◌==◌,
  if◌then◌else◌, length, not,
}
use cbbncd.Base.Int.{ℤ}
use cbbncd.Base.Text.{Bytes}
use cbbncd.Types.{AddressFamily}
use cbbncd.ListenPortManager.{ListenPortManager, acquire_port, release_port, mark_port_unavailable}
use cbbncd.Traffic.World.{World}
use cbbncd.Traffic.Conns.{
  PasvListener, disconnect_listener, listen, PasvConn, activate_pasv, start_polling, send_pasv,
  disconnect_pasv, pause_pasv, resume_pasv, PortConn, activate_port, send_port, disconnect_port,
  pause_port, resume_port,
}

pub data State : Type 0 where
  inactive awaiting_pasv active : State

pub record TrafficBncSession : Type 0 where
  pub pasvlistener : PasvListener
  pub pasvconn : PasvConn
  pub portconn : PortConn
  pub state : State
  pub id : ℕ
  pub portaddrfam : AddressFamily
  pub pasvaddrfam : AddressFamily
  pub targethost : Bytes
  pub targetport : ℤ

abbrev pub is_awaiting : State → Bool
is_awaiting awaiting_pasv = true
is_awaiting _ = false

unfoldable pub is_active : TrafficBncSession → Bool
is_active s = elim s.state [ inactive ↦ false | _ ↦ true ]

-- `getListenPortManager()->releasePort(port)`.
abbrev pub releasing : ℕ → World → World
releasing port w = record w { ports = release_port port w.ports }

-- What the loop of `activate` asks of the outside: the values of `rand()` and `time(nullptr)` in
-- each round, and what `registerTCPServerSocket` returns for a port. No port is tried twice.
pub record Answers : Type 0 where
  pub rand : ℕ → ℕ
  pub time : ℕ → ℕ
  pub register : ℕ → Option ℕ

-- How the loop ends: bound to a port, with `-1`, or cut off by its fuel.
pub data Bound : Type 0 where
  at : ℕ → Bound
  exhausted : Bound
  out_of_fuel : Bound

-- The second half of a round, on what `listen` returned; `again` is the rest of the loop.
abbrev pub listened :
    (PasvListener → World → Bound × PasvListener × World)
    → ℕ
    → ℕ
    → Bool × PasvListener × World
    → Bound × PasvListener × World
listened again now port (true, l, w) = (at port, l, w)
listened again now port (false, l, w) =
    again l (record w { ports = mark_port_unavailable now port w.ports })

-- A round, on what `acquirePort` returned.
abbrev pub acquired :
    (PasvListener → World → Bound × PasvListener × World)
    → Answers
    → ℕ
    → AddressFamily
    → PasvListener
    → World
    → Option ℕ × ListenPortManager
    → Bound × PasvListener × World
acquired again a now addrfam l w (none, ports) = (exhausted, l, record w { ports = ports })
acquired again a now addrfam l w (some port, ports) =
    listened again now port (listen (a.register port) addrfam port l (record w { ports = ports }))

-- `while (!success)`, with `fuel` rounds left.
pub bind_loop : ℕ → Answers → AddressFamily → PasvListener → World → Bound × PasvListener × World
bind_loop zero a addrfam l w = (out_of_fuel, l, w)
bind_loop (suc fuel) a addrfam l w =
    acquired (λ l' w'. bind_loop fuel a addrfam l' w') a (a.time fuel) addrfam l w
      (acquire_port (a.rand fuel) w.ports)

abbrev pub finished :
    TrafficBncSession → Bound × PasvListener × World → Option ℕ × TrafficBncSession × World
finished s (at port, l, w) = (some port, record s { pasvlistener = l; state = awaiting_pasv }, w)
finished s (exhausted, l, w) = (none, record s { pasvlistener = l }, w)
finished s (out_of_fuel, l, w) = (none, record s { pasvlistener = l }, w)

-- The port to connect to, or `none` for -1. Every round but the last uses up a port of the pool.
unfoldable pub activate :
    Answers
    → AddressFamily
    → AddressFamily
    → Bytes
    → ℤ
    → TrafficBncSession
    → World
    → Option ℕ × TrafficBncSession × World
unfolding bind_loop
activate a pasvaddrfam portaddrfam host port s w =
    let s' = record s {
      portaddrfam = portaddrfam;
      pasvaddrfam = pasvaddrfam;
      targethost = host;
      targetport = port;
    } in
    let w' = if is_awaiting s.state then releasing s.pasvlistener.listenport w else w in
    finished s' (bind_loop (length w'.ports.available_ports + 1) a pasvaddrfam s.pasvlistener w')

unfoldable pub disconnect : TrafficBncSession → World → TrafficBncSession × World
disconnect s w =
    let (c, w1) = disconnect_pasv s.pasvconn w in
    let (p, w2) = disconnect_port s.portconn w1 in
    let (l, w3) = disconnect_listener s.pasvlistener w2 in
    (
      record s { pasvconn = c; portconn = p; pasvlistener = l; state = inactive },
      if is_awaiting s.state then releasing s.pasvlistener.listenport w3 else w3,
    )

-- `portsockid` is the socket that `registerTCPClientSocket` returns.
unfoldable pub pasv_connected : ℕ → ℕ → TrafficBncSession → World → TrafficBncSession × World
pasv_connected newsockid portsockid s w =
    let (c, w1) = activate_pasv newsockid s.pasvconn w in
    let (p, w2) = activate_port portsockid s.portaddrfam s.targethost s.targetport s.portconn w1 in
    (
      record s { state = active; pasvconn = c; portconn = p },
      releasing s.pasvlistener.listenport w2,
    )

-- `PasvListener::FDNew`.
unfoldable pub listener_fd_new : ℕ → ℕ → TrafficBncSession → World → TrafficBncSession × World
unfolding pasv_connected
listener_fd_new newsockid portsockid s w =
    let (s', w1) = pasv_connected newsockid portsockid s w in
    let (l, w2) = disconnect_listener s'.pasvlistener w1 in (record s' { pasvlistener = l }, w2)

unfoldable pub port_connect_failure : TrafficBncSession → World → TrafficBncSession × World
port_connect_failure s w =
    let (c, w1) = disconnect_pasv s.pasvconn w in (record s { pasvconn = c; state = inactive }, w1)

unfoldable pub port_connected : TrafficBncSession → World → TrafficBncSession × World
port_connected s w = (s, start_polling s.pasvconn w)

-- `sent` is what `sendData` returns: false asks for a pause.
unfoldable pub pasv_conn_data : Bool → Bytes → TrafficBncSession → World → TrafficBncSession × World
unfolding pause_pasv
pasv_conn_data sent bytes s w =
    let w1 = send_port bytes s.portconn w in
    let (c, w2) = pause_pasv s.pasvconn w1 in
    if sent then (s, w1) else (record s { pasvconn = c }, w2)

unfoldable pub port_conn_data : Bool → Bytes → TrafficBncSession → World → TrafficBncSession × World
unfolding pause_port
port_conn_data sent bytes s w =
    let w1 = send_pasv bytes s.pasvconn w in
    let (p, w2) = pause_port s.portconn w1 in
    if sent then (s, w1) else (record s { portconn = p }, w2)

unfoldable pub transfer_finished : TrafficBncSession → TrafficBncSession
transfer_finished s = record s { state = inactive }

unfoldable pub pasv_conn_closed : TrafficBncSession → World → TrafficBncSession × World
unfolding transfer_finished
pasv_conn_closed s w =
    let (p, w1) = disconnect_port s.portconn w in
    (transfer_finished (record s { portconn = p }), w1)

unfoldable pub port_conn_closed : TrafficBncSession → World → TrafficBncSession × World
unfolding transfer_finished
port_conn_closed s w =
    let (c, w1) = disconnect_pasv s.pasvconn w in
    (transfer_finished (record s { pasvconn = c }), w1)

unfoldable pub pasv_conn_send_complete : TrafficBncSession → World → TrafficBncSession × World
unfolding resume_port
pasv_conn_send_complete s w =
    let (p, w1) = resume_port s.portconn w in
    if s.portconn.paused then (record s { portconn = p }, w1) else (s, w)

unfoldable pub port_conn_send_complete : TrafficBncSession → World → TrafficBncSession × World
unfolding resume_pasv
port_conn_send_complete s w =
    let (c, w1) = resume_pasv s.pasvconn w in
    if s.pasvconn.paused then (record s { pasvconn = c }, w1) else (s, w)

unfoldable pub drop_listener : TrafficBncSession → World → TrafficBncSession × World
drop_listener s w =
    let (l, w1) = disconnect_listener s.pasvlistener w in
    if is_awaiting s.state
    then (record s { pasvlistener = l; state = inactive }, releasing s.pasvlistener.listenport w1)
    else (s, w)

-- The event is for the socket that the connection has.
abbrev pub is_own : Option ℕ → ℕ → Bool
is_own none sockid = false
is_own (some own) sockid = own == sockid

-- `PasvConn::FDDisconnected`. It sets the parameter `sockid`, not the member: the connection keeps
-- the id of the closed socket.
unfoldable pub pasv_conn_fd_disconnected : ℕ → TrafficBncSession → World → TrafficBncSession × World
unfolding pasv_conn_closed
pasv_conn_fd_disconnected sockid s w =
    if is_own s.pasvconn.sockid sockid then pasv_conn_closed s w else (s, w)

-- `PortConn::FDDisconnected`, which does clear the member.
unfoldable pub port_conn_fd_disconnected : ℕ → TrafficBncSession → World → TrafficBncSession × World
unfolding port_conn_closed
port_conn_fd_disconnected sockid s w =
    if is_own s.portconn.sockid sockid
    then port_conn_closed (record s { portconn = record (s.portconn) { sockid = none } }) w
    else (s, w)
