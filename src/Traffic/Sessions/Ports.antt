-- ===== src/Traffic/Sessions/Ports.antt =====
-- The ports of all the transfers of a client: one listener at most, and no port lost.
use cbbncd.Base.{
  ℕ, ◌≡◌, refl, false, List, [], ◌∷◌, ◌++◌, Option, none, some, arith, length, ap, ◌∙◌,
  if◌then◌else◌, Bool-cases, inl, inr,
}
use cbbncd.Base.Int.{ℤ}
use cbbncd.Base.Text.{Bytes}
use cbbncd.Types.{AddressFamily}
use cbbncd.ListenPortManager.Ledger.{Accounted, release_port-Accounted}
use cbbncd.ListenPortManager.Count.{free_count-le-length}
use cbbncd.Traffic.World.{World, close_if_open, close_if_open-ports}
use cbbncd.Traffic.Conns.{PasvListener}
use cbbncd.Traffic.Session.{
  TrafficBncSession, is_awaiting, is_active, Answers, Bound, at, exhausted, out_of_fuel, finished,
  activate, disconnect, drop_listener,
}
use cbbncd.Traffic.Session.Bind.{Binds, bind_loop-Binds}
use cbbncd.Traffic.Sessions.{drop_listeners, target, put_back, activate_any, disconnect_all}

-- The ports on which the sessions listen.
abbrev pub awaited : List TrafficBncSession → List ℕ
awaited [] = []
awaited (s ∷ ss) =
    if is_awaiting s.state then s.pasvlistener.listenport ∷ awaited ss else awaited ss

abbrev pub to_list : Option ℕ → List ℕ
to_list none = []
to_list (some port) = port ∷ []

awaited-append : (ss ts : List TrafficBncSession) → awaited (ss ++ ts) ≡ awaited ss ++ awaited ts
awaited-append [] ts = refl
awaited-append (s ∷ ss) ts = elim (Bool-cases (is_awaiting s.state)) [
  | inl waits ↦ rw waits (ap (◌∷◌ s.pasvlistener.listenport) (awaited-append ss ts))
  | inr idle ↦ rw idle (awaited-append ss ts)
]

drop_listener-Accounted :
    (s : TrafficBncSession) (held : List ℕ) (w : World)
    → Accounted (awaited (s ∷ []) ++ held) w.ports
    → Accounted held (drop_listener s w).1.ports × (is_awaiting (drop_listener s w).0.state ≡ false)
unfolding drop_listener
drop_listener-Accounted s held w v = elim (Bool-cases (is_awaiting s.state)) [
  | inl waits ↦
      rw (waits, close_if_open-ports s.pasvlistener.sockid w)
        (release_port-Accounted _ held w.ports (rw waits at v), refl)
  | inr idle ↦ rw idle (rw idle at v, idle)
]

-- No session of the list listens.
abbrev pub Idle : List TrafficBncSession → Type 0
Idle [] = Unit {0}
Idle (s ∷ ss) = (is_awaiting s.state ≡ false) × Idle ss

Idle-awaited : (ss : List TrafficBncSession) → Idle ss → awaited ss ≡ []
Idle-awaited [] h = refl
Idle-awaited (s ∷ ss) (e, h) = rw e (Idle-awaited ss h)

awaited-cons :
    (s : TrafficBncSession) (ss : List TrafficBncSession) (held : List ℕ)
    → awaited (s ∷ ss) ++ held ≡ awaited (s ∷ []) ++ (awaited ss ++ held)
awaited-cons s ss held = elim (Bool-cases (is_awaiting s.state)) [
  | inl waits ↦ rw waits refl
  | inr idle ↦ rw idle refl
]

abbrev Dropped : List ℕ → List TrafficBncSession × World → Type 0
Dropped held (ss, w) = Accounted held w.ports × Idle ss

drop_listeners-Dropped :
    (ss : List TrafficBncSession) (held : List ℕ) (w : World)
    → Accounted (awaited ss ++ held) w.ports
    → Dropped held (drop_listeners ss w)
unfolding drop_listeners
drop_listeners-Dropped [] held w v = (v, tt)
drop_listeners-Dropped (s ∷ ss) held w v =
    let (v', idle) =
      drop_listener-Accounted s (awaited ss ++ held) w (rw (awaited-cons s ss held) at v) in
    let (v2, idle2) = drop_listeners-Dropped ss held _ v' in (v2, (idle, idle2))

-- The session that is used and those around it, none of which listens.
abbrev IdleTarget : List TrafficBncSession × TrafficBncSession × List TrafficBncSession → Type 0
IdleTarget (before, s, behind) = Idle before × (is_awaiting s.state ≡ false) × Idle behind

target-IdleTarget : (ss : List TrafficBncSession) (size : ℕ) → Idle ss → IdleTarget (target ss size)
unfolding target
target-IdleTarget [] size h = (tt, refl, tt)
target-IdleTarget (s ∷ ss) size (e, h) = elim (Bool-cases (is_active s)) [
  | inl busy ↦ let (b, i, a) = target-IdleTarget ss size h in rw busy ((e, b), i, a)
  | inr free ↦ rw free (tt, e, h)
]

Idle-around :
    (before behind : List TrafficBncSession) (s : TrafficBncSession)
    → Idle before
    → Idle behind
    → awaited (before ++ s ∷ behind) ≡ awaited (s ∷ [])
Idle-around before behind s h k =
    rw (awaited-append before (s ∷ behind), Idle-awaited before h)
      (elim (Bool-cases (is_awaiting s.state)) [
        | inl waits ↦ rw (waits, Idle-awaited behind k) refl
        | inr idle ↦ rw (idle, Idle-awaited behind k) refl
      ])

-- A session that gets a port listens on it, and that port is on the ledger; one that gets none
-- does not listen.
abbrev pub Activated : List ℕ → Option ℕ × TrafficBncSession × World → Type 0
Activated held (port, s, w) =
    Accounted (to_list port ++ held) w.ports × (awaited (s ∷ []) ≡ to_list port)

finished-Activated :
    (held : List ℕ) (s : TrafficBncSession) (r : Bound × PasvListener × World)
    → is_awaiting s.state ≡ false
    → Binds held r
    → Activated held (finished s r)
finished-Activated held s (at port, l, w) h b = (b.0, ap (λ p. p ∷ []) b.1)
finished-Activated held s (exhausted, l, w) h b = (b, rw h refl)
finished-Activated held s (out_of_fuel, l, w) h b = absurd b

activate-Activated :
    (a : Answers) (pasvaddrfam portaddrfam : AddressFamily) (host : Bytes) (port : ℤ)
    (s : TrafficBncSession) (held : List ℕ) (w : World)
    → is_awaiting s.state ≡ false
    → Accounted held w.ports
    → Activated held (activate a pasvaddrfam portaddrfam host port s w)
unfolding activate
activate-Activated a pasvaddrfam portaddrfam host port s held w h v = rw h (
    finished-Activated held
      (record s {
        portaddrfam = portaddrfam;
        pasvaddrfam = pasvaddrfam;
        targethost = host;
        targetport = port;
      })
      _ h
      (bind_loop-Binds _ a pasvaddrfam held s.pasvlistener w v
        (omega (arith, free_count-le-length w.ports))))

put_back-Balanced :
    (before behind : List TrafficBncSession) (held : List ℕ)
    (r : Option ℕ × TrafficBncSession × World)
    → Idle before
    → Idle behind
    → Activated held r
    → let (port, ss, w) = put_back before behind r in
      Accounted (awaited ss ++ held) w.ports × (awaited ss ≡ to_list port)
put_back-Balanced before behind held (port, s, w) h k (v, e) =
    let all : awaited (before ++ s ∷ behind) ≡ to_list port = Idle-around before behind s h k ∙ e in
    (rw all v, all)

-- When a client asks for a transfer, its earlier listeners are dropped and at most one is opened:
-- the sessions listen on just the port that is returned, or on none if -1 is. The ports on the
-- ledger are then that one and those of the other clients; no other port of the range stays taken,
-- unless it has a mark.
pub activate_any-Balanced :
    (a : Answers) (pasvaddrfam portaddrfam : AddressFamily) (host : Bytes) (port : ℤ)
    (sessions : List TrafficBncSession) (others : List ℕ) (w : World)
    → Accounted (awaited sessions ++ others) w.ports
    → let (result, sessions', w') = activate_any a pasvaddrfam portaddrfam host port sessions w in
      Accounted (awaited sessions' ++ others) w'.ports × (awaited sessions' ≡ to_list result)
unfolding activate_any
activate_any-Balanced a pasvaddrfam portaddrfam host port sessions others w v =
    let (v', idle) = drop_listeners-Dropped sessions others w v in
    let dropped = drop_listeners sessions w in
    let t = target dropped.0 (length dropped.0) in
    let (b, i, k) = target-IdleTarget dropped.0 (length dropped.0) idle in
    put_back-Balanced t.0 t.2 others (activate a pasvaddrfam portaddrfam host port t.1 dropped.1) b
      k (activate-Activated a pasvaddrfam portaddrfam host port t.1 others dropped.1 i v')

disconnect-Accounted :
    (s : TrafficBncSession) (held : List ℕ) (w : World)
    → Accounted (awaited (s ∷ []) ++ held) w.ports
    → Accounted held (disconnect s w).1.ports × (is_awaiting (disconnect s w).0.state ≡ false)
unfolding disconnect
disconnect-Accounted s held w v = elim (Bool-cases (is_awaiting s.state)) [
  | inl waits ↦ rw waits (rw closed (release_port-Accounted _ held w.ports (rw waits at v)), refl)
  | inr idle ↦ rw idle (rw closed (rw idle at v), refl)
]
  where
    closed :
        (close_if_open s.pasvlistener.sockid
          (close_if_open s.portconn.sockid (close_if_open s.pasvconn.sockid w))).ports
        ≡ w.ports
    closed =
        close_if_open-ports s.pasvlistener.sockid _
        ∙ close_if_open-ports s.portconn.sockid _
        ∙ close_if_open-ports s.pasvconn.sockid w

-- When the client goes, all its ports are given back and no session listens.
pub disconnect_all-Dropped :
    (sessions : List TrafficBncSession) (others : List ℕ) (w : World)
    → Accounted (awaited sessions ++ others) w.ports
    → Accounted others (disconnect_all sessions w).1.ports × Idle (disconnect_all sessions w).0
unfolding disconnect_all
disconnect_all-Dropped [] others w v = (v, tt)
disconnect_all-Dropped (s ∷ ss) others w v =
    let (v', idle) =
      disconnect-Accounted s (awaited ss ++ others) w (rw (awaited-cons s ss others) at v) in
    let (v2, idle2) = disconnect_all-Dropped ss others _ v' in (v2, (idle, idle2))
