-- ===== src/Traffic/Sessions.antt =====
-- bnc/trafficbncsessions.cpp: the transfers of one client.
pub mod Ports
use cbbncd.Base.{
  ℕ, zero, suc, Bool, true, false, List, [], ◌∷◌, ◌++◌, Option, none, some, if◌then◌else◌, length,
}
use cbbncd.Base.Int.{ℤ, pos}
use cbbncd.Base.Text.{Bytes}
use cbbncd.Types.{AddressFamily, no_family}
use cbbncd.Traffic.World.{World}
use cbbncd.Traffic.Session.{
  TrafficBncSession, inactive, is_active, Answers, activate, disconnect, drop_listener,
}

-- `new TrafficBncSession(id)`; what C++ leaves unset is set before it is read.
abbrev pub new_session : ℕ → TrafficBncSession
new_session id = record {
  pasvlistener = record { listenport = 0; sockid = none; failedlistenports = [] };
  pasvconn = record { sockid = none; paused = false };
  portconn = record { sockid = none; addrfam = no_family; host = []; port = pos 0; paused = false };
  state = inactive;
  id = id;
  portaddrfam = no_family;
  pasvaddrfam = no_family;
  targethost = [];
  targetport = pos 0;
}

abbrev pub also_first :
    TrafficBncSession → List TrafficBncSession × World → List TrafficBncSession × World
also_first s (ss, w) = (s ∷ ss, w)

-- The loop of `activate`: every session drops its listener.
pub drop_listeners : List TrafficBncSession → World → List TrafficBncSession × World
drop_listeners [] w = ([], w)
drop_listeners (s ∷ ss) w = let (s', w') = drop_listener s w in also_first s' (drop_listeners ss w')

-- Splits at the session that is used: the first one that is not active, or a new one.
pub target :
    List TrafficBncSession → ℕ → List TrafficBncSession × TrafficBncSession × List TrafficBncSession
target [] size = ([], new_session size, [])
target (s ∷ ss) size =
    let (before, t, behind) = target ss size in
    if is_active s then (s ∷ before, t, behind) else ([], s, ss)

abbrev pub put_back :
    List TrafficBncSession
    → List TrafficBncSession
    → Option ℕ × TrafficBncSession × World
    → Option ℕ × List TrafficBncSession × World
put_back before behind (port, s, w) = (port, before ++ s ∷ behind, w)

unfoldable pub activate_any :
    Answers
    → AddressFamily
    → AddressFamily
    → Bytes
    → ℤ
    → List TrafficBncSession
    → World
    → Option ℕ × List TrafficBncSession × World
unfolding drop_listeners target
activate_any a pasvaddrfam portaddrfam host port sessions w =
    let (dropped, w') = drop_listeners sessions w in
    let (before, s, behind) = target dropped (length dropped) in
    put_back before behind (activate a pasvaddrfam portaddrfam host port s w')

unfoldable pub disconnect_all : List TrafficBncSession → World → List TrafficBncSession × World
disconnect_all [] w = ([], w)
disconnect_all (s ∷ ss) w = let (s', w') = disconnect s w in also_first s' (disconnect_all ss w')
