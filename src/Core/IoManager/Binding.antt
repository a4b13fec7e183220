-- ===== src/Core/IoManager/Binding.antt =====
-- The interface and the addresses that sockets are bound to, in core/iomanager.cpp. What the system
-- says of an interface is an argument, and log lines are left out.
use cbbncd.Base.{[], ◌∷◌, Bool, true, false, not, ◌&&◌, ◌||◌, ◌==◌, if◌then◌else◌}
use cbbncd.Base.Text.{Bytes}
use cbbncd.Types.{AddressFamily, no_family, ipv4, ipv6, ipv4_ipv6, is_ipv4}
use cbbncd.Core.IoManager.Connecting.{StringResult, success, failure}

pub record Binding : Type 0 where
  pub bindinterface : Bytes
  pub bindaddress4 : Bytes
  pub bindaddress6 : Bytes
  pub hasbindinterface : Bool
  pub hasbindaddress4 : Bool
  pub hasbindaddress6 : Bool

abbrev pub no_binding : Binding
no_binding = record {
  bindinterface = [];
  bindaddress4 = [];
  bindaddress6 = [];
  hasbindinterface = false;
  hasbindaddress4 = false;
  hasbindaddress6 = false;
}

abbrev pub same_text : Bytes → Bytes → Bool
same_text [] [] = true
same_text (a ∷ s) (b ∷ t) = a == b && same_text s t
same_text s t = false

abbrev pub get_bind_address : AddressFamily → Binding → Bytes
get_bind_address addrfam b = if is_ipv4 addrfam then b.bindaddress4 else b.bindaddress6

abbrev pub has_bind_address : AddressFamily → Binding → Bool
has_bind_address addrfam b = if is_ipv4 addrfam then b.hasbindaddress4 else b.hasbindaddress6

abbrev pub interface_found : Bytes → StringResult → Binding → Binding
interface_found interface (failure text) b = b
interface_found interface (success address) b =
    if not b.hasbindinterface || not (same_text b.bindinterface interface)
    then record b { bindinterface = interface; hasbindinterface = true }
    else b

-- `setBindInterface`.
abbrev pub set_bind_interface : (Bytes → StringResult) → Bytes → Binding → Binding
set_bind_interface address_of [] b = record b { hasbindinterface = false }
set_bind_interface address_of (c ∷ interface) b =
    interface_found (c ∷ interface) (address_of (c ∷ interface)) b

abbrev pub is_new : Bool → Bytes → Bytes → Bool
is_new has_address old address = not has_address && not (same_text old address)

-- `setBindAddress`.
abbrev pub set_bind_address : AddressFamily → Bytes → Binding → Binding
set_bind_address ipv4 [] b = record b { hasbindaddress4 = false }
set_bind_address ipv6 [] b = record b { hasbindaddress6 = false }
set_bind_address ipv4 (c ∷ address) b =
    if is_new b.hasbindaddress4 b.bindaddress4 (c ∷ address)
    then record b { bindaddress4 = c ∷ address; hasbindaddress4 = true }
    else b
set_bind_address ipv6 (c ∷ address) b =
    if is_new b.hasbindaddress6 b.bindaddress6 (c ∷ address)
    then record b { bindaddress6 = c ∷ address; hasbindaddress6 = true }
    else b
set_bind_address no_family address b = b
set_bind_address ipv4_ipv6 address b = b

-- `getAddressToBind`, for the two addresses of an interface; an empty text: to none.
abbrev pub get_address_to_bind :
    (Bytes → StringResult) → (Bytes → StringResult) → AddressFamily → Binding → StringResult
get_address_to_bind address4_of address6_of addrfam b =
    if has_bind_address addrfam b
    then success (get_bind_address addrfam b)
    else if b.hasbindinterface
    then if is_ipv4 addrfam then address4_of b.bindinterface else address6_of b.bindinterface
    else success []
