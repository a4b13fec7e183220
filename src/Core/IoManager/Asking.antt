-- ===== src/Core/IoManager/Asking.antt =====
-- What others ask the IOManager about a socket, and the TLS sessions that it stores.
use cbbncd.Base.{ℕ, ◌+◌, ◌∷◌, Bool, true, false, ◌||◌, Option, none, some, if◌then◌else◌}
use cbbncd.Base.Text.{Bytes, codes}
use cbbncd.Types.{AddressFamily, ipv4_ipv6, is_ipv4, is_ipv6}
use cbbncd.Core.SocketInfo.{SocketInfo, SocketType, tcp_ssl}
use cbbncd.Core.IoManager.{IoManager, erase_key}
use cbbncd.Core.IoManager.Connecting.{StringResult, success, failure}

abbrev pub unknown : Bytes
unknown = codes "?"

-- An answer about a socket that is there, or another.
abbrev pub ask {ℓ} : {A : Type ℓ} → A → (SocketInfo → A) → Option SocketInfo → A
ask other answer none = other
ask other answer (some s) = answer s

abbrev pub is_some : Option ℕ → Bool
is_some none = false
is_some (some n) = true

abbrev pub if_ssl {ℓ} : {A : Type ℓ} → A → (ℕ → A) → SocketType → Option ℕ → A
if_ssl other answer tcp_ssl (some ssl) = answer ssl
if_ssl other answer type ssl = other

-- What OpenSSL says of a connection is an argument.
abbrev pub get_cipher : (ℕ → Bytes) → ℕ → IoManager → Bytes
get_cipher cipher sockid m =
    ask unknown (λ s. if_ssl unknown cipher s.type s.ssl) (m.socketinfomap sockid)

abbrev pub get_ssl_session_reuse : ℕ → IoManager → Bool
get_ssl_session_reuse sockid m =
    ask false (λ s. is_some s.parentid || is_some s.sessionkey) (m.socketinfomap sockid)

abbrev pub get_ssl_session_reused : (ℕ → Bool) → ℕ → IoManager → Bool
get_ssl_session_reused reused sockid m =
    ask false (λ s. if_ssl false reused s.type s.ssl) (m.socketinfomap sockid)

abbrev pub get_reused_session_key : ℕ → IoManager → Option ℕ
get_reused_session_key sockid m = ask none (λ s. s.sessionkey) (m.socketinfomap sockid)

abbrev pub get_socket_address : ℕ → IoManager → Bytes
get_socket_address sockid m = ask unknown (λ s. s.addr) (m.socketinfomap sockid)

abbrev pub get_socket_port : ℕ → IoManager → Option ℕ
get_socket_port sockid m = ask none (λ s. some s.port) (m.socketinfomap sockid)

abbrev pub get_socket_file_descriptor : ℕ → IoManager → Option ℕ
get_socket_file_descriptor sockid m = ask none (λ s. s.fd) (m.socketinfomap sockid)

abbrev pub get_interface_address : ℕ → IoManager → Bytes
get_interface_address sockid m = ask unknown (λ s. s.localaddr) (m.socketinfomap sockid)

abbrev pub by_name : (Bytes → StringResult) → StringResult → StringResult
by_name address_of (failure text) = failure text
by_name address_of (success name) = address_of name

-- getInterfaceName and the addresses of an interface, which ask the system, are arguments, and so
-- is the text of StringResult().
abbrev pub get_interface_address4 :
    (Bytes → StringResult) → (Bytes → StringResult) → StringResult → ℕ → IoManager → StringResult
get_interface_address4 name_of address_of nothing sockid m =
    ask nothing
      (λ s.
        if is_ipv4 s.addrfam then success s.localaddr else by_name address_of (name_of s.localaddr))
      (m.socketinfomap sockid)

abbrev pub get_interface_address6 :
    (Bytes → StringResult) → (Bytes → StringResult) → StringResult → ℕ → IoManager → StringResult
get_interface_address6 name_of address_of nothing sockid m =
    ask nothing
      (λ s.
        if is_ipv6 s.addrfam then success s.localaddr else by_name address_of (name_of s.localaddr))
      (m.socketinfomap sockid)

abbrev pub get_address_family : ℕ → IoManager → AddressFamily
get_address_family sockid m = ask ipv4_ipv6 (λ s. s.addrfam) (m.socketinfomap sockid)

abbrev pub store_for : (ℕ → ℕ) → Option ℕ → IoManager → Option ℕ × IoManager
store_for session_of none m = (none, m)
store_for session_of (some ssl) m = (
  some m.sessionkeycounter,
  record m {
    sessionkeycounter = m.sessionkeycounter + 1;
    sessions = (m.sessionkeycounter, session_of ssl) ∷ m.sessions;
  },
)

-- `storeSession`, for the session of an SSL object. None: -1.
abbrev pub store_session : (ℕ → ℕ) → ℕ → IoManager → Option ℕ × IoManager
store_session session_of sockid m =
    store_for session_of (ask none (λ s. s.ssl) (m.socketinfomap sockid)) m

-- `clearSession`; the session is freed too.
abbrev pub clear_session : ℕ → IoManager → IoManager
clear_session sessionkey m = record m { sessions = erase_key sessionkey m.sessions }

abbrev pub clear_key : Option ℕ → IoManager → IoManager
clear_key none m = m
clear_key (some sessionkey) m = clear_session sessionkey m

abbrev pub clear_reused_session : ℕ → IoManager → IoManager
clear_reused_session sockid m = clear_key (ask none (λ s. s.sessionkey) (m.socketinfomap sockid)) m
