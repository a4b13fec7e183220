-- ===== src/ListenPortManager/Ledger.antt =====
-- The pool against a list of the ports that sessions hold: no port is held twice, none is lost.
use cbbncd.Base.{
  ℕ, ◌≡◌, ◌≢◌, ◌∙◌, ap, sym, ◌⊎◌, inl, inr, true, false, ◌||◌, List, [], ◌∷◌, Option, none, some,
  arith, ◌==◌, Bool-cases,
}
use cbbncd.ListenPortManager.{
  ListenPortManager, acquire_port, take_found, release_port, mark_port_unavailable, uint,
}
use cbbncd.ListenPortManager.Free.{
  is_free, in_range, has_key, Inv, Acquired, contains, acquire_port-Acquired, acquire_port-Inv,
  release_port-Inv, mark_port_unavailable-Inv, is_free-release_port, is_free-mark_port_unavailable,
  has_key-assign, has_key-erase,
}
use cbbncd.ListenPortManager.Held.{
  IsHeld, release_port-IsHeld, mark_port_unavailable-IsHeld, unavailable_ports-acquire_port,
}

abbrev pub Distinct : List ℕ → Type 0
Distinct [] = Unit {0}
Distinct (p ∷ ps) = (contains p ps ≡ false) × Distinct ps

-- The ports of the list, each in it once, are held by sessions; any other port of the range that is
-- not free has a mark, and comes back when that runs out.
pub record Accounted (held : List ℕ) (m : ListenPortManager) : Type 0 where
  pub inv : Inv m
  pub distinct : Distinct held
  pub kept : (p : ℕ) → contains p held ≡ true → IsHeld m p
  pub known :
      (p : ℕ)
      → in_range m p ≡ true
      → is_free m p ≡ false
      → (contains p held ≡ true) ⊎ (has_key p m.unavailable_ports ≡ true)

-- What `acquirePort` returns is added to the ledger.
abbrev pub Enters : List ℕ → ListenPortManager → Option ℕ × ListenPortManager → Type 0
Enters held m (some port, m') = (in_range m' port ≡ true) × Accounted (port ∷ held) m'
Enters held m (none, m') = m' ≡ m

acquire_port_range :
    (rand q : ℕ) (m : ListenPortManager) → in_range (acquire_port rand m).1 q ≡ in_range m q
unfolding acquire_port take_found
acquire_port_range rand q m = ground arith

pub release_port_range :
    (port q : ℕ) (m : ListenPortManager) → in_range (release_port port m) q ≡ in_range m q
unfolding release_port
release_port_range port q m = ground arith

mark_port_unavailable_range :
    (now port q : ℕ) (m : ListenPortManager)
    → in_range (mark_port_unavailable now port m) q ≡ in_range m q
unfolding mark_port_unavailable
mark_port_unavailable_range now port q m = ground arith

entered :
    (held : List ℕ) (m : ListenPortManager) (r : Option ℕ × ListenPortManager)
    → Accounted held m
    → Acquired m r
    → Inv r.1
    → r.1.unavailable_ports ≡ m.unavailable_ports
    → ((q : ℕ) → in_range r.1 q ≡ in_range m q)
    → Enters held m r
entered held m (none, m') v a i u range = a.0
entered held m (some p, m') v a i u range = (
  range p ∙ a.0,
  record {
    inv = i;
    distinct = (fresh, v.distinct);
    kept = λ q h. elim (Bool-cases (q == p)) [
      | inl same ↦ record {
        not_free = ground (arith, a.2 q);
        not_marked = rw u (ground (arith, v.inv.blocked q));
      }
      | inr other ↦
          let old = v.kept q (ground arith) in
          record {
            not_free = ground (arith, a.2 q, old.not_free);
            not_marked = rw u old.not_marked;
          }
    ];
    known = λ q h f. elim (Bool-cases (p == q)) [
      | inl same ↦ inl (ground arith)
      | inr other ↦ rw u (ground (arith, v.known q (range_of q h) (ground (arith, a.2 q))))
    ];
  },
)
  where
    fresh : contains p held ≡ false
    fresh = elim (Bool-cases (contains p held)) [
      | inl h ↦ absurd (ground (arith, v.kept p h))
      | inr h ↦ h
    ]

    range_of : (q : ℕ) → in_range m' q ≡ true → in_range m q ≡ true
    range_of q h = sym (range q) ∙ h

pub acquire_port-Enters :
    (rand : ℕ) (held : List ℕ) (m : ListenPortManager)
    → Accounted held m
    → Enters held m (acquire_port rand m)
acquire_port-Enters rand held m v =
    entered held m _ v (acquire_port-Acquired rand m v.inv) (acquire_port-Inv rand m v.inv)
      (unavailable_ports-acquire_port rand m) (λ q. acquire_port_range rand q m)

has_key-release_port_ne :
    (port q : ℕ) (m : ListenPortManager)
    → port ≢ q
    → has_key q m.unavailable_ports ≡ true
    → has_key q (release_port port m).unavailable_ports ≡ true
unfolding release_port
has_key-release_port_ne port q m d h = ground (arith, has_key-erase port q m.unavailable_ports)

has_key-mark_port_unavailable :
    (now port q : ℕ) (m : ListenPortManager)
    → in_range m port ≡ true
    → has_key q (mark_port_unavailable now port m).unavailable_ports
      ≡ (q == port || has_key q m.unavailable_ports)
unfolding mark_port_unavailable
has_key-mark_port_unavailable now port q m h =
    ground (arith, has_key-assign port (uint now) q m.unavailable_ports)

contains_ne : (p q : ℕ) (held : List ℕ) → contains p held ≡ false → contains q held ≡ true → p ≢ q
contains_ne p q held h k e = ground (arith, ap (λ r. contains r held) e)

-- A port that a session gives back leaves the ledger and is free again.
pub release_port-Accounted :
    (p : ℕ) (held : List ℕ) (m : ListenPortManager)
    → Accounted (p ∷ held) m
    → Accounted held (release_port p m)
release_port-Accounted p held m v = record {
  inv = release_port-Inv p m v.inv;
  distinct = v.distinct.1;
  kept = λ q h.
      release_port-IsHeld p q m v.inv (contains_ne p q held v.distinct.0 h)
        (v.kept q (ground arith));
  known = λ q h f.
      let d : p ≢ q =
        λ e. ground (arith, is_free-release_port p q m v.inv, release_port_range p q m) in
      ground (
        arith,
        v.known q (sym (release_port_range p q m) ∙ h)
            (ground (arith, is_free-release_port p q m v.inv)),
        has_key-release_port_ne p q m d,
      );
}

-- A port on which no listener could be opened leaves the ledger with a mark.
pub mark_port_unavailable-Accounted :
    (now p : ℕ) (held : List ℕ) (m : ListenPortManager)
    → in_range m p ≡ true
    → Accounted (p ∷ held) m
    → Accounted held (mark_port_unavailable now p m)
mark_port_unavailable-Accounted now p held m range v = record {
  inv = mark_port_unavailable-Inv now p m v.inv;
  distinct = v.distinct.1;
  kept = λ q h.
      mark_port_unavailable-IsHeld now p q m v.inv (contains_ne p q held v.distinct.0 h)
        (v.kept q (ground arith));
  known = λ q h f. elim (Bool-cases (p == q)) [
    | inl same ↦ inr (has_key-mark_port_unavailable now p q m range ∙ ground arith)
    | inr other ↦ ground (
      arith,
      v.known q (sym (mark_port_unavailable_range now p q m) ∙ h)
          (ground (arith, is_free-mark_port_unavailable now p q m v.inv)),
      has_key-mark_port_unavailable now p q m range,
    )
  ];
}

-- A pool with all its ports free balances the empty ledger.
pub initial-Accounted :
    (m : ListenPortManager) → Inv m → ((q : ℕ) → is_free m q ≡ in_range m q) → Accounted [] m
initial-Accounted m v free = record {
  inv = v;
  distinct = tt;
  kept = λ p h. cc;
  known = λ p h k. absurd (ground (arith, free p));
}
