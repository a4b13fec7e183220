-- ===== src/Traffic/Session/Bind.antt =====
-- The loop that finds a port to listen on ends, and accounts for every port that it tries.
use cbbncd.Base.{ℕ, zero, suc, ◌<◌, ◌≡◌, refl, true, List, ◌∷◌, Option, none, some, arith}
use cbbncd.Types.{AddressFamily}
use cbbncd.ListenPortManager.{ListenPortManager}
use cbbncd.ListenPortManager.Free.{in_range}
use cbbncd.ListenPortManager.Ledger.{
  Accounted, Enters, acquire_port-Enters, mark_port_unavailable-Accounted,
}
use cbbncd.ListenPortManager.Count.{
  free_count, UsesOne, acquire_port-UsesOne, free_count-mark_port_unavailable,
}
use cbbncd.Traffic.World.{World, close_if_open-ports}
use cbbncd.Traffic.Conns.{PasvListener, listen, is_open, bound}
use cbbncd.Traffic.Session.{
  Answers, Bound, at, exhausted, out_of_fuel, listened, acquired, bind_loop,
}

-- The listener is open on the port it was bound to, and that port is in the ledger; with no port
-- the ledger is as before and the listener is closed.
abbrev pub Binds : List ℕ → Bound × PasvListener × World → Type 0
Binds held (at port, l, w) =
    Accounted (port ∷ held) w.ports × (l.listenport ≡ port) × (is_open l.sockid ≡ true)
Binds held (exhausted, l, w) = Accounted held w.ports
Binds held (out_of_fuel, l, w) = ⊥

-- `again` does well on every pool with fewer free ports.
abbrev Again : (PasvListener → World → Bound × PasvListener × World) → List ℕ → ℕ → Type 0
Again again held fuel =
    (l : PasvListener) (w : World)
    → Accounted held w.ports
    → free_count w.ports < fuel
    → Binds held (again l w)

listened-Binds :
    (again : PasvListener → World → Bound × PasvListener × World) (held : List ℕ)
    (fuel now port : ℕ) (registered : Option ℕ) (l : PasvListener) (w : World)
    → Again again held fuel
    → in_range w.ports port ≡ true
    → Accounted (port ∷ held) w.ports
    → free_count w.ports < fuel
    → Binds held (listened again now port (is_open registered, bound l registered port, w))
listened-Binds again held fuel now port (some sockid) l w ih range v h = (v, refl, refl)
listened-Binds again held fuel now port none l w ih range v h =
    ih _ _ (mark_port_unavailable-Accounted now port held w.ports range v)
      (omega (arith, free_count-mark_port_unavailable now port w.ports))

-- The socket calls of `listen` leave the pool alone.
listen-Binds :
    (again : PasvListener → World → Bound × PasvListener × World) (held : List ℕ)
    (fuel now port : ℕ) (registered : Option ℕ) (addrfam : AddressFamily) (l : PasvListener)
    (w : World)
    → Again again held fuel
    → in_range w.ports port ≡ true
    → Accounted (port ∷ held) w.ports
    → free_count w.ports < fuel
    → Binds held (listened again now port (listen registered addrfam port l w))
unfolding listen
listen-Binds again held fuel now port registered addrfam l w ih range v h =
    listened-Binds again held fuel now port registered (record l { sockid = none }) _ ih
      (rw (close_if_open-ports l.sockid w) range) (rw (close_if_open-ports l.sockid w) v)
      (rw (close_if_open-ports l.sockid w) h)

acquired-Binds :
    (again : PasvListener → World → Bound × PasvListener × World) (held : List ℕ) (fuel now : ℕ)
    (a : Answers) (addrfam : AddressFamily) (l : PasvListener) (w : World)
    (r : Option ℕ × ListenPortManager)
    → Again again held fuel
    → Accounted held w.ports
    → free_count w.ports < suc fuel
    → Enters held w.ports r
    → UsesOne w.ports r
    → Binds held (acquired again a now addrfam l w r)
acquired-Binds again held fuel now a addrfam l w (none, m) ih v h e u = rw e v
acquired-Binds again held fuel now a addrfam l w (some port, m) ih v h e u =
    listen-Binds again held fuel now port (a.register port) addrfam l (record w { ports = m }) ih
      e.0 e.1 (omega arith)

pub bind_loop-Binds :
    (fuel : ℕ) (a : Answers) (addrfam : AddressFamily) (held : List ℕ)
    → Again (bind_loop fuel a addrfam) held fuel
unfolding bind_loop
bind_loop-Binds zero a addrfam held l w v h = absurd (omega arith)
bind_loop-Binds (suc fuel) a addrfam held l w v h =
    acquired-Binds _ held fuel (a.time fuel) a addrfam l w _ (bind_loop-Binds fuel a addrfam held) v
      h (acquire_port-Enters (a.rand fuel) held w.ports v)
      (acquire_port-UsesOne (a.rand fuel) w.ports v.inv)
