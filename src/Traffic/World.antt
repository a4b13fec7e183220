-- ===== src/Traffic/World.antt =====
-- What the traffic sessions share: the port pool, and the calls that are made to the IOManager
-- and to TickPoke.
-- The IOManager's answers are arguments of the operations; a socket id of -1 is `none`.
use cbbncd.Base.{ℕ, ◌≡◌, refl, Bool, List, [], ◌∷◌, ◌++◌, Option, none, some}
use cbbncd.Base.Int.{ℤ}
use cbbncd.Base.Text.{Bytes}
use cbbncd.Types.{AddressFamily}
use cbbncd.ListenPortManager.{ListenPortManager}

pub data IoCall : Type 0 where
  register_tcp_server_socket : ℕ → AddressFamily → IoCall
  register_tcp_client_socket : Bytes → ℤ → AddressFamily → IoCall
  register_tcp_server_client_socket : ℕ → Bool → IoCall
  close_socket : ℕ → IoCall
  pause : Option ℕ → IoCall
  resume : Option ℕ → IoCall
  send_data : Option ℕ → Bytes → IoCall
  negotiate_ssl_accept : Option ℕ → IoCall
  negotiate_ssl_connect : Option ℕ → IoCall
  start_poke : ℕ → ℕ → IoCall
  stop_poke : ℕ → IoCall

pub record World : Type 0 where
  pub ports : ListenPortManager
  pub calls : List IoCall

-- Calls stand in the order in which they are made.
abbrev pub calling : IoCall → World → World
calling c w = record w { calls = w.calls ++ c ∷ [] }

-- `if (sockid == -1) return; closeSocket(sockid)`.
abbrev pub close_if_open : Option ℕ → World → World
close_if_open none w = w
close_if_open (some sockid) w = calling (close_socket sockid) w

-- Closing a socket leaves the port pool alone.
pub close_if_open-ports : (sockid : Option ℕ) (w : World) → (close_if_open sockid w).ports ≡ w.ports
close_if_open-ports none w = refl
close_if_open-ports (some sockid) w = refl
