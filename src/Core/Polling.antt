-- ===== src/Core/Polling.antt =====
-- core/pollingpoll.h: for which events of which descriptors `poll` is asked. A descriptor is a
-- number, and none stands for -1. The lock is left out, and so is `wait`, which asks the system.
use cbbncd.Base.{ℕ, Bool, true, false, Option, none, some, ◌==◌, if◌then◌else◌}

abbrev pub Fd : Type 0
Fd = Option ℕ

-- The bits POLLIN and POLLOUT, and the user's number.
pub record Interest : Type 0 where
  pub pollin : Bool
  pub pollout : Bool
  pub userdata : Option ℕ

-- `fdmap`.
abbrev pub FdMap : Type 0
FdMap = Fd → Option Interest

abbrev pub same_fd : Fd → Fd → Bool
same_fd none none = true
same_fd (some a) (some b) = a == b
same_fd a b = false

abbrev pub assign_fd : Fd → Option Interest → FdMap → FdMap
assign_fd fd new_interest polls other = if same_fd fd other then new_interest else polls other

abbrev pub or_in : Option ℕ → Option Interest → Interest
or_in userdata none = record { pollin = true; pollout = false; userdata = userdata }
or_in userdata (some i) = record i { pollin = true }

abbrev pub or_out : Option ℕ → Option Interest → Interest
or_out userdata none = record { pollin = false; pollout = true; userdata = userdata }
or_out userdata (some i) = record i { pollout = true }

abbrev pub add_fd_in : Fd → Option ℕ → FdMap → FdMap
add_fd_in fd userdata polls = assign_fd fd (some (or_in userdata (polls fd))) polls

abbrev pub add_fd_out : Fd → Option ℕ → FdMap → FdMap
add_fd_out fd userdata polls = assign_fd fd (some (or_out userdata (polls fd))) polls

abbrev pub remove_fd : Fd → FdMap → FdMap
remove_fd fd polls = assign_fd fd none polls

abbrev pub set_fd_in : Fd → Option ℕ → FdMap → FdMap
set_fd_in fd userdata polls =
    assign_fd fd (some (record { pollin = true; pollout = false; userdata = userdata })) polls

abbrev pub set_fd_out : Fd → Option ℕ → FdMap → FdMap
set_fd_out fd userdata polls =
    assign_fd fd (some (record { pollin = false; pollout = true; userdata = userdata })) polls
