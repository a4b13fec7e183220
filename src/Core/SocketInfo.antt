-- ===== src/Core/SocketInfo.antt =====
-- core/socketinfo.h: what the IOManager knows of a socket. An `int` that may be -1 is an option,
-- and so is a pointer. A block of the send queue stands with the bytes that `memcpy` put in it:
-- while it is in the queue the pool hands it to nobody else.
use cbbncd.Base.{ℕ, List, [], Bool, true, false, Option, none}
use cbbncd.Base.Text.{Bytes}
use cbbncd.Types.{AddressFamily}
use cbbncd.Types
use cbbncd.Core.Polling.{Fd}
use cbbncd.Core.Event.{Prio, normal}
use cbbncd.Core.DataBlockPool.{DataBlock}

pub data SocketType : Type 0 where
  unused : SocketType
  external : SocketType
  tcp_plain : SocketType
  tcp_ssl : SocketType
  udp : SocketType
  tcp_server : SocketType
  tcp_server_external : SocketType
  tcp_plain_listen : SocketType
  tcp_ssl_neg_connect : SocketType
  tcp_ssl_neg_redo_connect : SocketType
  tcp_ssl_neg_accept : SocketType
  tcp_ssl_neg_redo_accept : SocketType
  tcp_connecting : SocketType
  tcp_resolving : SocketType
  stop : SocketType

pub data Direction : Type 0 where
  dir_in : Direction
  dir_out : Direction

pub record SocketInfo : Type 0 where
  pub type : SocketType
  pub addrfam : AddressFamily
  pub fd : Fd
  pub id : Option ℕ
  pub parentid : Option ℕ
  pub addr : Bytes
  pub port : ℕ
  pub localaddr : Bytes
  pub localport : ℕ
  pub gairet : ℕ
  pub gaires : Option ℕ
  pub gaierr : Bytes
  pub gaiasync : Bool
  pub receiver : Option ℕ
  pub sendqueue : List (DataBlock × Bytes)
  pub ssl : Option ℕ
  pub sslshutdown : Bool
  pub prio : Prio
  pub paused : Bool
  pub direction : Direction
  pub listenimmediately : Bool
  pub closing : Bool
  pub sessionkey : Option ℕ

abbrev pub new_socket : SocketInfo
new_socket = record {
  type = unused;
  addrfam = Types.no_family;
  fd = none;
  id = none;
  parentid = none;
  addr = [];
  port = 0;
  localaddr = [];
  localport = 0;
  gairet = 0;
  gaires = none;
  gaierr = [];
  gaiasync = false;
  receiver = none;
  sendqueue = [];
  ssl = none;
  sslshutdown = true;
  prio = normal;
  paused = false;
  direction = dir_in;
  listenimmediately = true;
  closing = false;
  sessionkey = none;
}
