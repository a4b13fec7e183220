-- ===== src/ListenPortManager/Count.antt =====
-- How many ports are free: each port that is handed out is one less.
use cbbncd.Base.{
  ℕ, zero, suc, ◌+◌, ◌-◌, ◌≤◌, ◌≡◌, Bool, true, false, List, [], ◌∷◌, Option, none, some, arith,
  if◌then◌else◌, length, get_or, set,
}
use cbbncd.ListenPortManager.{
  ListenPortManager, Scan, found, exhausted, out_of_fuel, take_found, acquire_port,
  mark_port_unavailable,
}
use cbbncd.ListenPortManager.Search.{Answers}
use cbbncd.ListenPortManager.Free.{Inv, answers}

abbrev count : List Bool → ℕ
count [] = 0
count (x ∷ xs) = (if x then 1 else 0) + count xs

count-le-length : (xs : List Bool) → count xs ≤ length xs
count-le-length [] = omega arith
count-le-length (x ∷ xs) = ground (arith, count-le-length xs)

count-set_free :
    (xs : List Bool) (i : ℕ) → get_or xs i false ≡ true → count (set xs i false) + 1 ≡ count xs
count-set_free [] i h = absurd (ground arith)
count-set_free (x ∷ xs) zero h = ground arith
count-set_free (x ∷ xs) (suc i) h = omega (arith, count-set_free xs i h)

count-set-le : (xs : List Bool) (i : ℕ) → count (set xs i false) ≤ count xs
count-set-le [] i = omega arith
count-set-le (x ∷ xs) zero = ground arith
count-set-le (x ∷ xs) (suc i) = omega (arith, count-set-le xs i)

pub free_count : ListenPortManager → ℕ
free_count m = count m.available_ports

pub free_count-le-length : (m : ListenPortManager) → free_count m ≤ length m.available_ports
unfolding free_count
free_count-le-length m = count-le-length m.available_ports

abbrev pub UsesOne : ListenPortManager → Option ℕ × ListenPortManager → Type 0
UsesOne m (some port, m') = free_count m' + 1 ≡ free_count m
UsesOne m (none, m') = Unit {0}

take_found-UsesOne :
    (m : ListenPortManager) (s : Scan) → Answers m.available_ports s → UsesOne m (take_found m s)
unfolding take_found free_count
take_found-UsesOne m (found pos) a = count-set_free m.available_ports pos a.1
take_found-UsesOne m exhausted a = tt
take_found-UsesOne m out_of_fuel a = tt

pub acquire_port-UsesOne :
    (rand : ℕ) (m : ListenPortManager) → Inv m → UsesOne m (acquire_port rand m)
unfolding acquire_port
acquire_port-UsesOne rand m v = take_found-UsesOne m _ (answers rand m v)

pub free_count-mark_port_unavailable :
    (now port : ℕ) (m : ListenPortManager)
    → free_count (mark_port_unavailable now port m) ≤ free_count m
unfolding mark_port_unavailable free_count
free_count-mark_port_unavailable now port m =
    ground (arith, count-set-le m.available_ports (port - m.first_port))
