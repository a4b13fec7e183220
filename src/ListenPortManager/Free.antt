-- ===== src/ListenPortManager/Free.antt =====
-- What the operations of the port pool do to the set of free ports.
use native.Mathlib.Nat.{mod-lt}
use cbbncd.Base.{
  ℕ, ◌+◌, ◌-◌, ◌%◌, ◌<◌, ◌≡◌, refl, inl, inr, Bool, true, false, ◌&&◌, ◌||◌, not, List, [], ◌∷◌,
  Option, none, some, arith, ltb, leb, ◌==◌, if◌then◌else◌, Bool-cases, length, get_or, length-set,
  length-replicate, get_or-set, get_or-replicate, get_or_beyond, by_test, ap, ◌∙◌, ◌^◌,
}
use cbbncd.ListenPortManager.{
  ListenPortManager, assign, erase, set_port_range, whole_range, Scan, found, exhausted,
  out_of_fuel, scan, take_found, acquire_port, release_port, mark_port_unavailable, expired_list,
  release_expired, tick, uint, is_expired,
}
use cbbncd.ListenPortManager.Search.{Answers, scan-Answers}

-- The port may be handed out.
abbrev pub is_free : ListenPortManager → ℕ → Bool
is_free m port = leb m.first_port port && get_or m.available_ports (port - m.first_port) false

abbrev pub in_range : ListenPortManager → ℕ → Bool
in_range m port = leb m.first_port port && leb port m.last_port

abbrev pub has_key : ℕ → List (ℕ × ℕ) → Bool
has_key k [] = false
has_key k ((j, w) ∷ m) = k == j || has_key k m

-- The pool covers its range, and no port that is marked unavailable is free.
pub record Inv (m : ListenPortManager) : Type 0 where
  pub ordered : m.first_port < m.last_port
  pub sized : length m.available_ports ≡ m.last_port - m.first_port + 1
  pub blocked : (port : ℕ) → has_key port m.unavailable_ports ≡ true → is_free m port ≡ false

abbrev pub Acquired : ListenPortManager → Option ℕ × ListenPortManager → Type 0
Acquired m (some port, m') =
    (in_range m port ≡ true)
    × (is_free m port ≡ true)
    × ((q : ℕ) → is_free m' q ≡ (if port == q then false else is_free m q))
Acquired m (none, m') = (m' ≡ m) × ((q : ℕ) → is_free m q ≡ false)

take_found-Acquired :
    (m : ListenPortManager) (s : Scan)
    → Inv m
    → Answers m.available_ports s
    → Acquired m (take_found m s)
unfolding take_found
take_found-Acquired m (found pos) v (lt, free) =
    let e : m.first_port + pos - m.first_port ≡ pos = omega arith in
    (
      ground (arith, v.ordered, v.sized),
      rw e (ground arith),
      λ q. ground (arith, get_or-set m.available_ports pos (q - m.first_port) false false),
    )
take_found-Acquired m exhausted v a = (
  refl,
  λ q.
      ground
        (arith, a (q - m.first_port), get_or_beyond m.available_ports (q - m.first_port) false),
)
take_found-Acquired m out_of_fuel v a = absurd a

pub answers :
    (rand : ℕ) (m : ListenPortManager)
    → Inv m
    → let size = length m.available_ports in
      Answers m.available_ports (scan size (rand % size) (rand % size) m.available_ports)
answers rand m v =
    scan-Answers (length m.available_ports) (rand % length m.available_ports)
      (rand % length m.available_ports) m.available_ports starts starts (ground arith)
      (λ i h w. ground arith)
  where
    starts : rand % length m.available_ports < length m.available_ports
    starts = mod-lt rand (omega (arith, v.sized))

-- `acquirePort` hands out a free port of the range and takes just that one; it fails, leaving the
-- pool as it was, only when no port is free, whatever `rand()` returns.
pub acquire_port-Acquired :
    (rand : ℕ) (m : ListenPortManager) → Inv m → Acquired m (acquire_port rand m)
unfolding acquire_port
acquire_port-Acquired rand m v = take_found-Acquired m _ v (answers rand m v)

pub is_free-release_port :
    (port q : ℕ) (m : ListenPortManager)
    → Inv m
    → is_free (release_port port m) q ≡ (if port == q && in_range m q then true else is_free m q)
unfolding release_port
is_free-release_port port q m v = ground (
  arith,
  v.sized,
  v.ordered,
  get_or-set m.available_ports (port - m.first_port) (q - m.first_port) true false,
)

pub is_free-mark_port_unavailable :
    (now port q : ℕ) (m : ListenPortManager)
    → Inv m
    → is_free (mark_port_unavailable now port m) q ≡ (if port == q then false else is_free m q)
unfolding mark_port_unavailable
is_free-mark_port_unavailable now port q m v = ground (
  arith,
  v.sized,
  v.ordered,
  get_or-set m.available_ports (port - m.first_port) (q - m.first_port) false false,
  get_or_beyond m.available_ports (q - m.first_port) false,
)

pub has_key-assign :
    (k v j : ℕ) (m : List (ℕ × ℕ)) → has_key j (assign k v m) ≡ (j == k || has_key j m)
unfolding assign
has_key-assign k v j [] = refl
has_key-assign k v j ((i, w) ∷ m) = ground (arith, has_key-assign k v j m)

pub has_key-erase :
    (k j : ℕ) (m : List (ℕ × ℕ)) → has_key j (erase k m) ≡ (not (j == k) && has_key j m)
unfolding erase
has_key-erase k j [] = ground arith
has_key-erase k j ((i, w) ∷ m) = ground (arith, has_key-erase k j m)

fresh-Inv :
    (first last : ℕ)
    → ltb first last ≡ true
    → Inv (whole_range first last)
      × ((q : ℕ) → is_free (whole_range first last) q ≡ in_range (whole_range first last) q)
fresh-Inv first last h = (
  record {
    ordered = ground arith;
    sized = ground (arith, length-replicate (last - first + 1) true);
    blocked = λ q k. cc;
  },
  λ q. ground (arith, get_or-replicate (last - first + 1) (q - first) true false),
)

-- A new range starts with all its ports free, and just those.
pub set_port_range-Inv :
    (first last : ℕ) (m : ListenPortManager) {m' : ListenPortManager}
    → set_port_range first last m ≡ some m'
    → Inv m' × ((q : ℕ) → is_free m' q ≡ in_range m' q)
unfolding set_port_range
set_port_range-Inv first last m {m'} e = elim (Bool-cases (ltb first last)) [
  | inl h ↦
      let same : m' ≡ whole_range first last = ground arith in rw same (fresh-Inv first last h)
  | inr h ↦ absurd (ground arith)
]

take_found-Inv :
    (m : ListenPortManager) (s : Scan)
    → Inv m
    → Answers m.available_ports s
    → Inv (take_found m s).1
unfolding take_found
take_found-Inv m (found pos) v a = record {
  ordered = v.ordered;
  sized = ground (arith, v.sized, length-set m.available_ports pos false);
  blocked = λ q k.
      ground (arith, v.blocked q, get_or-set m.available_ports pos (q - m.first_port) false false);
}
take_found-Inv m exhausted v a = v
take_found-Inv m out_of_fuel v a = v

pub acquire_port-Inv : (rand : ℕ) (m : ListenPortManager) → Inv m → Inv (acquire_port rand m).1
unfolding acquire_port
acquire_port-Inv rand m v = take_found-Inv m _ v (answers rand m v)

pub release_port-Inv : (port : ℕ) (m : ListenPortManager) → Inv m → Inv (release_port port m)
unfolding release_port
release_port-Inv port m v = record {
  ordered = ground (arith, v.ordered);
  sized = ground (arith, v.sized, length-set m.available_ports (port - m.first_port) true);
  blocked = λ q k. ground (
    arith,
    is_free-release_port port q m v,
    v.blocked q,
    has_key-erase port q m.unavailable_ports,
  );
}

pub mark_port_unavailable-Inv :
    (now port : ℕ) (m : ListenPortManager) → Inv m → Inv (mark_port_unavailable now port m)
unfolding mark_port_unavailable
mark_port_unavailable-Inv now port m v = record {
  ordered = ground (arith, v.ordered);
  sized = ground (arith, v.sized, length-set m.available_ports (port - m.first_port) false);
  blocked = λ q k. ground (
    arith,
    is_free-mark_port_unavailable now port q m v,
    v.blocked q,
    has_key-assign port (uint now) q m.unavailable_ports,
  );
}

release_expired-Inv :
    (ports : List ℕ) (m : ListenPortManager) → Inv m → Inv (release_expired ports m)
unfolding release_expired
release_expired-Inv [] m v = v
release_expired-Inv (port ∷ ports) m v = release_expired-Inv ports _ (
    release_port-Inv port _ (record {
      ordered = v.ordered;
      sized = v.sized;
      blocked = λ q k. v.blocked q (ground (arith, has_key-erase port q m.unavailable_ports));
    }))

pub tick-Inv : (now : ℕ) (m : ListenPortManager) → Inv m → Inv (tick now m)
unfolding tick
tick-Inv now m v = release_expired-Inv _ m v

abbrev pub contains : ℕ → List ℕ → Bool
contains k [] = false
contains k (j ∷ ports) = k == j || contains k ports

forget-Inv :
    (port : ℕ) (m : ListenPortManager)
    → Inv m
    → Inv (record m { unavailable_ports = erase port m.unavailable_ports })
forget-Inv port m v = record {
  ordered = v.ordered;
  sized = v.sized;
  blocked = λ q k. v.blocked q (ground (arith, has_key-erase port q m.unavailable_ports));
}

release_port_range :
    (port q : ℕ) (m : ListenPortManager) → in_range (release_port port m) q ≡ in_range m q
unfolding release_port
release_port_range port q m = ground arith

is_free-release_expired :
    (ports : List ℕ) (q : ℕ) (m : ListenPortManager)
    → Inv m
    → is_free (release_expired ports m) q
      ≡ (if contains q ports && in_range m q then true else is_free m q)
unfolding release_expired
is_free-release_expired [] q m v = refl
is_free-release_expired (port ∷ ports) q m v =
    let m' = record m { unavailable_ports = erase port m.unavailable_ports } in
    ground (
      arith,
      is_free-release_expired ports q (release_port port m')
          (release_port-Inv port m' (forget-Inv port m v)),
      is_free-release_port port q m' (forget-Inv port m v),
      release_port_range port q m',
    )

pub is_free-tick_expired :
    (now q : ℕ) (m : ListenPortManager)
    → Inv m
    → is_free (tick now m) q ≡ (
        if contains q (expired_list now m.unavailable_ports) && in_range m q
        then true
        else is_free m q)
unfolding tick
is_free-tick_expired now q m v =
    is_free-release_expired (expired_list now m.unavailable_ports) q m v

-- The port was marked, and 3600 seconds have gone since, in 32-bit times.
abbrev pub has_run_out : ℕ → ℕ → List (ℕ × ℕ) → Bool
has_run_out now q [] = false
has_run_out now q ((port, marked) ∷ marks) =
    (q == port && ltb ((marked + 3600) % 2 ^ 32) (now % 2 ^ 32)) || has_run_out now q marks

contains-expired_list :
    (now q : ℕ) (marks : List (ℕ × ℕ))
    → contains q (expired_list now marks) ≡ has_run_out now q marks
unfolding expired_list
contains-expired_list now q [] = refl
contains-expired_list now q ((port, marked) ∷ marks) =
    by_test (λ (ports : List ℕ). contains q ports ≡ has_run_out now q ((port, marked) ∷ marks))
      (is_expired now marked) _ _ (λ e. rw (contains-expired_list now q marks, e) (ground arith))
      (λ e. rw (contains-expired_list now q marks, e) (ground arith))

-- The tick frees the ports of the range that were marked more than 3600 seconds ago, in 32-bit
-- times that wrap around, and touches no other.
pub is_free-tick :
    (now q : ℕ) (m : ListenPortManager)
    → Inv m
    → is_free (tick now m) q
      ≡ (if has_run_out now q m.unavailable_ports && in_range m q then true else is_free m q)
is_free-tick now q m v =
    is_free-tick_expired now q m v
    ∙ ap (λ b. if b && in_range m q then true else is_free m q)
        (contains-expired_list now q m.unavailable_ports)
