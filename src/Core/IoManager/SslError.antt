-- ===== src/Core/IoManager/SslError.antt =====
-- investigateSSLError of core/iomanager.cpp: what a failed call of OpenSSL means for the socket.
use cbbncd.Base.{ℕ, Bool, true, false, ◌==◌, if◌then◌else◌}
use cbbncd.Base.Text.{Bytes, codes}

-- The answers of SSL_get_error that the code tells apart.
pub data SslError : Type 0 where
  want_read : SslError
  want_write : SslError
  zero_return : SslError
  error_syscall : SslError
  error_ssl : SslError
  other_error : SslError

-- A failure: the answer, errno, whether the error queue tells of an abrupt end, and the text that
-- is put together of the names of the function and of the errors.
pub record SslFailure : Type 0 where
  pub error : SslError
  pub errno : ℕ
  pub is_abrupt : Bool
  pub text : Bytes

pub data DisconnectType : Type 0 where
  no_disconnect : DisconnectType
  graceful : DisconnectType
  abrupt : DisconnectType
  disconnect_error : DisconnectType

-- `static_cast<int>`.
abbrev pub reason_number : DisconnectType → ℕ
reason_number no_disconnect = 0
reason_number graceful = 1
reason_number abrupt = 2
reason_number disconnect_error = 3

-- The type, whether `sslshutdown` becomes false, and the text.
pub record Investigated : Type 0 where
  pub type : DisconnectType
  pub forgets_shutdown : Bool
  pub errortext : Bytes

abbrev pub abrupt_text : Bytes
abrupt_text = codes "Connection closed abruptly by peer"

abbrev pub by_queue : Bool → SslFailure → Investigated
by_queue forgets f =
    if f.is_abrupt
    then record { type = abrupt; forgets_shutdown = forgets; errortext = abrupt_text }
    else record { type = disconnect_error; forgets_shutdown = forgets; errortext = f.text }

abbrev pub by_error : SslError → SslFailure → Investigated
by_error want_read f = record {
  type = no_disconnect;
  forgets_shutdown = false;
  errortext = codes "";
}
by_error want_write f = record {
  type = no_disconnect;
  forgets_shutdown = false;
  errortext = codes "";
}
by_error zero_return f = record {
  type = graceful;
  forgets_shutdown = false;
  errortext = codes "Connection closed gracefully by peer";
}
by_error error_syscall f =
    if f.errno == 0
    then record { type = abrupt; forgets_shutdown = true; errortext = abrupt_text }
    else by_queue true f
by_error error_ssl f = by_queue true f
by_error other_error f = by_queue false f

abbrev pub investigate_ssl_error : SslFailure → Investigated
investigate_ssl_error f = by_error f.error f
