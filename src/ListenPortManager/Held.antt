-- ===== src/ListenPortManager/Held.antt =====
-- A port that a session holds stays with it, whatever else the pool is asked for.
use cbbncd.Base.{ℕ, ◌≡◌, ◌≢◌, true, false, List, [], ◌∷◌, Option, none, some, arith}
use cbbncd.ListenPortManager.{
  ListenPortManager, acquire_port, take_found, release_port, mark_port_unavailable, expired_list,
  release_expired, tick, uint,
}
use cbbncd.ListenPortManager.Free.{
  is_free, has_key, Inv, Acquired, contains, acquire_port-Acquired, acquire_port-Inv,
  release_port-Inv, mark_port_unavailable-Inv, tick-Inv, is_free-release_port,
  is_free-mark_port_unavailable, is_free-tick_expired, has_key-assign, has_key-erase,
}

contains-expired_list :
    (now q : ℕ) (m : List (ℕ × ℕ)) → contains q (expired_list now m) ≡ true → has_key q m ≡ true
unfolding expired_list
contains-expired_list now q [] h = cc
contains-expired_list now q ((port, marked) ∷ m) h = ground (arith, contains-expired_list now q m)

has_key-release_port :
    (port q : ℕ) (m : ListenPortManager)
    → has_key q m.unavailable_ports ≡ false
    → has_key q (release_port port m).unavailable_ports ≡ false
unfolding release_port
has_key-release_port port q m h = ground (arith, has_key-erase port q m.unavailable_ports)

has_key-release_expired :
    (ports : List ℕ) (q : ℕ) (m : ListenPortManager)
    → has_key q m.unavailable_ports ≡ false
    → has_key q (release_expired ports m).unavailable_ports ≡ false
unfolding release_expired
has_key-release_expired [] q m h = h
has_key-release_expired (port ∷ ports) q m h =
    has_key-release_expired ports q _
      (has_key-release_port port q _ (ground (arith, has_key-erase port q m.unavailable_ports)))

-- The port is with a session: it is neither free nor waiting for its mark to run out.
pub record IsHeld (m : ListenPortManager) (port : ℕ) : Type 0 where
  pub not_free : is_free m port ≡ false
  pub not_marked : has_key port m.unavailable_ports ≡ false

pub tick-IsHeld : (now q : ℕ) (m : ListenPortManager) → Inv m → IsHeld m q → IsHeld (tick now m) q
unfolding tick
tick-IsHeld now q m v h = record {
  not_free = ground (
    arith,
    is_free-tick_expired now q m v,
    contains-expired_list now q m.unavailable_ports,
    h.not_free,
    h.not_marked,
  );
  not_marked = has_key-release_expired _ q m h.not_marked;
}

pub release_port-IsHeld :
    (port q : ℕ) (m : ListenPortManager)
    → Inv m
    → port ≢ q
    → IsHeld m q
    → IsHeld (release_port port m) q
release_port-IsHeld port q m v d h = record {
  not_free = ground (arith, is_free-release_port port q m v, h.not_free);
  not_marked = has_key-release_port port q m h.not_marked;
}

pub mark_port_unavailable-IsHeld :
    (now port q : ℕ) (m : ListenPortManager)
    → Inv m
    → port ≢ q
    → IsHeld m q
    → IsHeld (mark_port_unavailable now port m) q
unfolding mark_port_unavailable
mark_port_unavailable-IsHeld now port q m v d h = record {
  not_free = ground (arith, is_free-mark_port_unavailable now port q m v, h.not_free);
  not_marked = ground (arith, has_key-assign port (uint now) q m.unavailable_ports, h.not_marked);
}

pub unavailable_ports-acquire_port :
    (rand : ℕ) (m : ListenPortManager)
    → (acquire_port rand m).1.unavailable_ports ≡ m.unavailable_ports
unfolding acquire_port take_found
unavailable_ports-acquire_port rand m = ground arith

pub acquire_port-IsHeld :
    (rand q : ℕ) (m : ListenPortManager) → Inv m → IsHeld m q → IsHeld (acquire_port rand m).1 q
acquire_port-IsHeld rand q m v h = record {
  not_free = kept (acquire_port rand m) (acquire_port-Acquired rand m v);
  not_marked = rw (unavailable_ports-acquire_port rand m) h.not_marked;
}
  where
    kept : (r : Option ℕ × ListenPortManager) → Acquired m r → is_free r.1 q ≡ false
    kept (some port, m') a = ground (arith, a.2 q, h.not_free)
    kept (none, m') a = rw a.0 h.not_free

-- A request to the pool, with what `rand()` and `time(nullptr)` return to it.
pub data Request : Type 0 where
  acquires : ℕ → Request
  releases : ℕ → Request
  marks : ℕ → ℕ → Request
  ticks : ℕ → Request

unfoldable pub after : Request → ListenPortManager → ListenPortManager
after (acquires rand) m = (acquire_port rand m).1
after (releases port) m = release_port port m
after (marks now port) m = mark_port_unavailable now port m
after (ticks now) m = tick now m

unfoldable pub run : List Request → ListenPortManager → ListenPortManager
run [] m = m
run (r ∷ rs) m = run rs (after r m)

-- No request of the list gives the port back or marks it.
abbrev pub Spares : ℕ → List Request → Type 0
Spares port [] = Unit
Spares port (acquires rand ∷ rs) = Spares port rs
Spares port (releases q ∷ rs) = (q ≢ port) × Spares port rs
Spares port (marks now q ∷ rs) = (q ≢ port) × Spares port rs
Spares port (ticks now ∷ rs) = Spares port rs

after-Inv : (r : Request) (m : ListenPortManager) → Inv m → Inv (after r m)
unfolding after
after-Inv (acquires rand) m v = acquire_port-Inv rand m v
after-Inv (releases port) m v = release_port-Inv port m v
after-Inv (marks now port) m v = mark_port_unavailable-Inv now port m v
after-Inv (ticks now) m v = tick-Inv now m v

-- Every history of requests keeps the pool well formed: it covers its range, and no port that is
-- marked unavailable is free.
pub run-Inv : (rs : List Request) (m : ListenPortManager) → Inv m → Inv (run rs m)
unfolding run
run-Inv [] m v = v
run-Inv (r ∷ rs) m v = run-Inv rs (after r m) (after-Inv r m v)

run-IsHeld :
    (rs : List Request) (m : ListenPortManager) (port : ℕ)
    → Inv m
    → Spares port rs
    → IsHeld m port
    → IsHeld (run rs m) port
unfolding run after
run-IsHeld [] m port v s h = h
run-IsHeld (acquires rand ∷ rs) m port v s h =
    run-IsHeld rs _ port (acquire_port-Inv rand m v) s (acquire_port-IsHeld rand port m v h)
run-IsHeld (releases q ∷ rs) m port v s h =
    run-IsHeld rs _ port (release_port-Inv q m v) s.1 (release_port-IsHeld q port m v s.0 h)
run-IsHeld (marks now q ∷ rs) m port v s h =
    run-IsHeld rs _ port (mark_port_unavailable-Inv now q m v) s.1
      (mark_port_unavailable-IsHeld now q port m v s.0 h)
run-IsHeld (ticks now ∷ rs) m port v s h =
    run-IsHeld rs _ port (tick-Inv now m v) s (tick-IsHeld now port m v h)

Acquired-IsHeld :
    (m : ListenPortManager) (r : Option ℕ × ListenPortManager) {port : ℕ}
    → Inv m
    → Acquired m r
    → r.0 ≡ some port
    → r.1.unavailable_ports ≡ m.unavailable_ports
    → IsHeld r.1 port
Acquired-IsHeld m (none, m') v a e u = absurd (ground arith)
Acquired-IsHeld m (some p, m') {port} v a e u = record {
  not_free = ground (arith, a.2 port);
  not_marked = rw u (ground (arith, v.blocked port));
}

held_ne :
    (m : ListenPortManager) (r : Option ℕ × ListenPortManager) (port : ℕ) {q : ℕ}
    → Acquired m r
    → r.0 ≡ some q
    → IsHeld m port
    → q ≢ port
held_ne m (none, m') port a e h d = absurd (ground arith)
held_ne m (some p, m') port a e h d = ground (arith, h.not_free)

-- A port that was handed out is not handed out again before it is given back or marked, whatever
-- else the pool is asked for in between, ticks included.
pub acquire_port_exclusive :
    (m : ListenPortManager) (rand rand' : ℕ) (rs : List Request) {port q : ℕ}
    → Inv m
    → (acquire_port rand m).0 ≡ some port
    → Spares port rs
    → (acquire_port rand' (run rs (acquire_port rand m).1)).0 ≡ some q
    → q ≢ port
acquire_port_exclusive m rand rand' rs {port} v e s e' =
    held_ne later _ port (acquire_port-Acquired rand' later later-Inv) e' (
      run-IsHeld rs taken port (acquire_port-Inv rand m v) s (
        Acquired-IsHeld m _ v (acquire_port-Acquired rand m v) e
          (unavailable_ports-acquire_port rand m)))
  where
    taken : ListenPortManager
    taken = (acquire_port rand m).1

    later : ListenPortManager
    later = run rs taken

    later-Inv : Inv later
    later-Inv = run-Inv rs taken (acquire_port-Inv rand m v)
