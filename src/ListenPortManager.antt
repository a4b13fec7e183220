-- ===== src/ListenPortManager.antt =====
-- listenportmanager.h and listenportmanager.cpp: the pool of ports for passive listeners.
-- Ports and times are numbers; `acquirePort` takes the value of `rand()`, `tick` and
-- `markPortUnavailable` take that of `time(nullptr)`. `std::map` is an association list in key
-- order. A failed `assert` is `none`. Log lines are not modelled.
pub mod Search
pub mod Free
pub mod Held
pub mod Ledger
pub mod Count
use cbbncd.Base.{
  ℕ, zero, suc, ◌+◌, ◌-◌, ◌%◌, ◌^◌, Bool, true, false, ◌&&◌, ◌||◌, List, [], ◌∷◌, map, Option, none,
  some, ltb, leb, ◌==◌, if◌then◌else◌, length, get_or, set, replicate,
}

pub record ListenPortManager : Type 0 where
  pub first_port : ℕ
  pub last_port : ℕ
  pub available_ports : List Bool
  pub unavailable_ports : List (ℕ × ℕ)

-- `unavailableports[port] = now`.
unfoldable pub assign : ℕ → ℕ → List (ℕ × ℕ) → List (ℕ × ℕ)
assign k v [] = (k, v) ∷ []
assign k v ((j, w) ∷ m) =
    if ltb k j then (k, v) ∷ (j, w) ∷ m else if k == j then (k, v) ∷ m else (j, w) ∷ assign k v m

-- `unavailableports.erase(port)`. A key stands once, so erasing all its entries erases it.
unfoldable pub erase : ℕ → List (ℕ × ℕ) → List (ℕ × ℕ)
erase k [] = []
erase k ((j, w) ∷ m) = if k == j then erase k m else (j, w) ∷ erase k m

-- What `setPortRange` leaves behind.
abbrev pub whole_range : ℕ → ℕ → ListenPortManager
whole_range first last = record {
  first_port = first;
  last_port = last;
  available_ports = replicate (last - first + 1) true;
  unavailable_ports = [];
}

unfoldable pub set_port_range : ℕ → ℕ → ListenPortManager → Option ListenPortManager
set_port_range first last m = if ltb first last then some (whole_range first last) else none

-- How the search for a free position ends; the last is a search cut off by its fuel.
pub data Scan : Type 0 where
  found : ℕ → Scan
  exhausted : Scan
  out_of_fuel : Scan

-- The `while (true)` of `acquirePort`, from `pos`, with `start` as `startpos`.
unfoldable pub scan : ℕ → ℕ → ℕ → List Bool → Scan
scan zero pos start ports = out_of_fuel
scan (suc fuel) pos start ports =
    let next = (pos + 1) % length ports in
    let rest = scan fuel next start ports in
    if get_or ports pos false then found pos else if next == start then exhausted else rest

unfoldable pub take_found : ListenPortManager → Scan → Option ℕ × ListenPortManager
take_found m (found pos) =
    (some (m.first_port + pos), record m { available_ports = set m.available_ports pos false })
take_found m exhausted = (none, m)
take_found m out_of_fuel = (none, m)

-- `-1` is `none`. The fuel is the number of ports.
unfoldable pub acquire_port : ℕ → ListenPortManager → Option ℕ × ListenPortManager
acquire_port rand m =
    let size = length m.available_ports in
    let start = rand % size in take_found m (scan size start start m.available_ports)

abbrev out_of_range : ℕ → ListenPortManager → Bool
out_of_range port m = ltb port m.first_port || ltb m.last_port port

unfoldable pub release_port : ℕ → ListenPortManager → ListenPortManager
release_port port m = if out_of_range port m then m else record m {
  available_ports = set m.available_ports (port - m.first_port) true;
  unavailable_ports = erase port m.unavailable_ports;
}

-- A time is cut to `unsigned int`.
abbrev pub uint : ℕ → ℕ
uint n = n % 2 ^ 32

unfoldable pub mark_port_unavailable : ℕ → ℕ → ListenPortManager → ListenPortManager
mark_port_unavailable now port m = if out_of_range port m then m else record m {
  available_ports = set m.available_ports (port - m.first_port) false;
  unavailable_ports = assign port (uint now) m.unavailable_ports;
}

abbrev pub is_expired : ℕ → ℕ → Bool
is_expired now marked = ltb (uint (marked + 3600)) (uint now)

unfoldable pub expired_list : ℕ → List (ℕ × ℕ) → List ℕ
expired_list now [] = []
expired_list now ((port, marked) ∷ m) =
    let rest = expired_list now m in if is_expired now marked then port ∷ rest else rest

unfoldable pub release_expired : List ℕ → ListenPortManager → ListenPortManager
release_expired [] m = m
release_expired (port ∷ ports) m =
    release_expired ports
      (release_port port (record m { unavailable_ports = erase port m.unavailable_ports }))

unfoldable pub tick : ℕ → ListenPortManager → ListenPortManager
tick now m = release_expired (expired_list now m.unavailable_ports) m
