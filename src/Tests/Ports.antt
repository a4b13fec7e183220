-- ===== src/Tests/Ports.antt =====
-- The port pool and the traffic sessions, at a pool of four ports.
use cbbncd.Base.{
  ℕ, ◌≡◌, ◌≢◌, refl, ap, true, false, List, [], ◌∷◌, ◌++◌, Option, none, some, arith, if◌then◌else◌,
  ◌==◌,
}
use cbbncd.Base.Int.{pos}
use cbbncd.Base.Text.{codes}
use cbbncd.Types.{ipv4}
use cbbncd.ListenPortManager.{
  ListenPortManager, whole_range, scan, take_found, acquire_port, release_port,
  mark_port_unavailable, set_port_range, expired_list, release_expired, tick, assign, erase,
}
use cbbncd.ListenPortManager.Free.{
  is_free, Inv, Acquired, acquire_port-Acquired, set_port_range-Inv, is_free-tick,
}
use cbbncd.ListenPortManager.Held.{
  Request, acquires, releases, marks, ticks, run, after, run-Inv, acquire_port_exclusive,
}
use cbbncd.ListenPortManager.Ledger.{Accounted, initial-Accounted}
use cbbncd.Traffic.World.{World}
use cbbncd.Traffic.Session.{TrafficBncSession, Answers, awaiting_pasv, listener_fd_new}
use cbbncd.Traffic.Sessions.{new_session, activate_any, disconnect_all}
use cbbncd.Traffic.Sessions.Ports.{
  awaited, to_list, Idle, activate_any-Balanced, disconnect_all-Dropped,
}

abbrev pub pool : ListenPortManager
pool = whole_range 50000 50003

pool-Inv : Inv pool
unfolding set_port_range
pool-Inv = (set_port_range-Inv 50000 50003 pool refl).0

acquire_port-Acquired_example : Acquired pool (acquire_port 6 pool)
acquire_port-Acquired_example = acquire_port-Acquired 6 pool pool-Inv

abbrev requests : List Request
requests = acquires 2 ∷ marks 100 50003 ∷ ticks 5000 ∷ releases 50001 ∷ []

abbrev taken : ListenPortManager
taken = record pool { available_ports = true ∷ true ∷ false ∷ true ∷ [] }

acquire_port-taken : acquire_port 6 pool ≡ (some 50002, taken)
unfolding acquire_port scan take_found
acquire_port-taken = refl

-- Port 50003 is marked at 100 and comes back with the tick at 3701.
mark_runs_out : run (marks 100 50003 ∷ ticks 3701 ∷ []) taken ≡ taken
unfolding run after mark_port_unavailable assign tick expired_list release_expired release_port
    erase
mark_runs_out = refl

acquire_port_exclusive_example : ◌≢◌ {A = ℕ} 50003 50002
acquire_port_exclusive_example =
    acquire_port_exclusive pool 6 2 requests pool-Inv first (omega arith) second
  where
    first : (acquire_port 6 pool).0 ≡ some 50002
    first = ap (λ r. r.0) acquire_port-taken

    second : (acquire_port 2 (run requests (acquire_port 6 pool).1)).0 ≡ some 50003
    second =
        unfold acquire_port scan take_found run after mark_port_unavailable assign tick expired_list
          release_expired release_port erase in
        refl

run-Inv_example : Inv (run requests pool)
run-Inv_example = run-Inv requests pool pool-Inv

is_free-tick_example : is_free (tick 3800 (run (marks 100 50003 ∷ []) pool)) 50003 ≡ true
unfolding run after mark_port_unavailable assign expired_list
is_free-tick_example = is_free-tick 3800 50003 _ (run-Inv (marks 100 50003 ∷ []) pool pool-Inv)

pub pool-Accounted : Accounted [] pool
unfolding set_port_range
pool-Accounted =
    let (v, free) = set_port_range-Inv 50000 50003 pool refl in initial-Accounted pool v free

abbrev pub world : World
world = record { ports = pool; calls = [] }

-- No listener can be opened on port 50002.
abbrev pub outside : Answers
outside = record {
  rand = λ round. 2;
  time = λ round. 100;
  register = λ port. if port == 50002 then none else some 7;
}

abbrev asked : Option ℕ × List TrafficBncSession × World
asked = activate_any outside ipv4 ipv4 (codes "10.0.0.1") (pos 2000) [] world

activate_any-Balanced_example :
    Accounted (awaited asked.1 ++ []) asked.2.ports × (awaited asked.1 ≡ to_list asked.0)
activate_any-Balanced_example =
    activate_any-Balanced outside ipv4 ipv4 (codes "10.0.0.1") (pos 2000) [] [] world pool-Accounted

disconnect_all-Dropped_example :
    Accounted [] (disconnect_all asked.1 asked.2).1.ports × Idle (disconnect_all asked.1 asked.2).0
disconnect_all-Dropped_example =
    disconnect_all-Dropped asked.1 [] asked.2 activate_any-Balanced_example.0

abbrev waiting : TrafficBncSession
waiting = record (new_session 0) {
  pasvlistener = record { listenport = 50002; sockid = some 7; failedlistenports = [] };
  state = awaiting_pasv;
}

abbrev connected : TrafficBncSession × World
connected = listener_fd_new 8 9 waiting (record world { ports = taken })
