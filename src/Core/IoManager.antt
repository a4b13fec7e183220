-- ===== src/Core/IoManager.antt =====
-- core/iomanager.cpp, the sockets: which are polled, which are paused and how they are closed.
-- Calls of the system and of OpenSSL that change something are recorded in order. The lock, under
-- which nearly every operation runs, is left out. Socket ids are not negative.
pub mod Timeouts
pub mod Expiry
pub mod Pauses
pub mod Marking
pub mod Pausing
pub mod Waking
pub mod SslError
pub mod Sending
pub mod Pending
pub mod Closing
pub mod Storing
pub mod Writing
pub mod Receiving
pub mod Negotiation
pub mod Connecting
pub mod Serving
pub mod Loop
pub mod Elapsing
pub mod Holding
pub mod Binding
pub mod Asking
use cbbncd.Base.{
  ℕ, zero, suc, ◌+◌, List, [], ◌∷◌, ◌++◌, Bool, true, false, not, ◌&&◌, ◌||◌, Option, none, some,
  ◌==◌, leb, if◌then◌else◌,
}
use cbbncd.Base.Text.{Bytes, codes}
use cbbncd.Core.Polling.{Fd, FdMap, add_fd_in, add_fd_out, remove_fd, set_fd_in, set_fd_out}
use cbbncd.Core.SocketInfo.{
  SocketType, external, tcp_server_external, Direction, dir_in, dir_out, SocketInfo,
}
use cbbncd.Core.Event.{normal}
use cbbncd.Core.DataBlockPool.{DataBlockPool, DataBlock, return_block}
use cbbncd.Core.WorkManager.{WorkManager, dispatch_event_fail}

pub data SysCall : Type 0 where
  close_fd : Fd → SysCall
  ssl_shutdown : ℕ → SysCall
  ssl_free : ℕ → SysCall
  freeaddrinfo : ℕ → SysCall
  write_fd : Fd → Bytes → SysCall
  ssl_write : Option ℕ → Bytes → SysCall

pub record IoManager : Type 0 where
  pub polling : FdMap
  pub socketinfomap : ℕ → Option SocketInfo
  -- None as a time is -1.
  pub connecttimemap : List (ℕ × Option ℕ)
  pub autopaused : List ℕ
  pub manuallypaused : List ℕ
  pub workmanager : WorkManager
  pub sendblockpool : DataBlockPool
  pub sockidcounter : ℕ
  pub sessions : List (ℕ × ℕ)
  pub sessionkeycounter : ℕ
  -- What SSL_in_init answers for a connection.
  pub in_init : ℕ → Bool
  pub syscalls : List SysCall

-- `socketinfomap[sockid] = s`, or the removal of the entry.
abbrev pub put : ℕ → Option SocketInfo → IoManager → IoManager
put sockid s m = record m {
  socketinfomap = λ other. if sockid == other then s else m.socketinfomap other;
}

abbrev pub polled : FdMap → IoManager → IoManager
polled polls m = record m { polling = polls }

abbrev pub working : WorkManager → IoManager → IoManager
working w m = record m { workmanager = w }

abbrev pub calling : SysCall → IoManager → IoManager
calling call m = record m { syscalls = m.syscalls ++ call ∷ [] }

-- `pollRead` and the others, for the socket with the number.
abbrev pub poll_read : ℕ → SocketInfo → IoManager → IoManager
poll_read sockid s m =
    let m' = put sockid (some (record s { direction = dir_in })) m in
    if not s.paused then polled (add_fd_in s.fd s.id m'.polling) m' else m'

abbrev pub poll_write : ℕ → SocketInfo → IoManager → IoManager
poll_write sockid s m =
    let m' = put sockid (some (record s { direction = dir_out })) m in
    if not s.paused then polled (add_fd_out s.fd s.id m'.polling) m' else m'

abbrev pub set_poll_read : ℕ → SocketInfo → IoManager → IoManager
set_poll_read sockid s m =
    let m' = put sockid (some (record s { direction = dir_in })) m in
    if not s.paused then polled (set_fd_in s.fd s.id m'.polling) m' else m'

abbrev pub set_poll_write : ℕ → SocketInfo → IoManager → IoManager
set_poll_write sockid s m =
    let m' = put sockid (some (record s { direction = dir_out })) m in
    if not s.paused then polled (set_fd_out s.fd s.id m'.polling) m' else m'

abbrev pub unset_poll : SocketInfo → IoManager → IoManager
unset_poll s m = polled (remove_fd s.fd m.polling) m

-- `insert`, `erase` and `find` of a set of numbers.
abbrev pub has : ℕ → List ℕ → Bool
has n [] = false
has n (k ∷ s) = n == k || has n s

abbrev pub insert : ℕ → List ℕ → List ℕ
insert n s = if has n s then s else n ∷ s

abbrev pub erase : ℕ → List ℕ → List ℕ
erase n [] = []
erase n (k ∷ s) = let rest = erase n s in if n == k then rest else k ∷ rest

abbrev pub erase_key {ℓ} : {A : Type ℓ} → ℕ → List (ℕ × A) → List (ℕ × A)
erase_key n [] = []
erase_key n ((k, a) ∷ s) = let rest = erase_key n s in if n == k then rest else (k, a) ∷ rest

abbrev pub return_blocks : List (DataBlock × Bytes) → DataBlockPool → DataBlockPool
return_blocks [] pool = pool
return_blocks ((block, content) ∷ queue) pool = return_blocks queue (return_block block.datap pool)

abbrev pub is_external : SocketType → Bool
is_external external = true
is_external tcp_server_external = true
is_external type = false

abbrev pub shut_down : SocketInfo → Option ℕ → IoManager → List SysCall
shut_down s none m = []
shut_down s (some ssl) m =
    if s.sslshutdown && not (m.in_init ssl) then ssl_shutdown ssl ∷ [] else []

abbrev pub freed : (ℕ → SysCall) → Option ℕ → List SysCall
freed call none = []
freed call (some pointer) = call pointer ∷ []

abbrev pub close_found : ℕ → Option SocketInfo → IoManager → IoManager
close_found sockid none m = m
close_found sockid (some s) m = put sockid none (record m {
  polling = remove_fd s.fd m.polling;
  sendblockpool = return_blocks s.sendqueue m.sendblockpool;
  connecttimemap = erase_key sockid m.connecttimemap;
  autopaused = erase sockid m.autopaused;
  manuallypaused = erase sockid m.manuallypaused;
  syscalls =
      m.syscalls
      ++ (shut_down s s.ssl m
          ++ ((if is_external s.type then [] else close_fd s.fd ∷ [])
              ++ (freed ssl_free s.ssl ++ freed freeaddrinfo s.gaires)));
})

-- `closeSocketIntern`, and `closeSocketNow`.
abbrev pub close_socket_intern : ℕ → IoManager → IoManager
close_socket_intern sockid m = close_found sockid (m.socketinfomap sockid) m

abbrev pub has_nothing {ℓ} : {A : Type ℓ} → List A → Bool
has_nothing [] = true
has_nothing (a ∷ s) = false

abbrev pub close_or_wait : ℕ → Option SocketInfo → IoManager → IoManager
close_or_wait sockid none m = m
close_or_wait sockid (some s) m =
    if not (has_nothing s.sendqueue)
    then put sockid (some (record s { closing = true })) m
    else close_socket_intern sockid m

abbrev pub close_socket : ℕ → IoManager → IoManager
close_socket sockid m = close_or_wait sockid (m.socketinfomap sockid) m

-- `autoPause`.
abbrev pub auto_pause : ℕ → SocketInfo → IoManager → IoManager
auto_pause sockid s m =
    put sockid (some (record s { paused = true }))
      (record m { autopaused = insert sockid m.autopaused; polling = remove_fd s.fd m.polling })

abbrev pub pause_found : ℕ → Option SocketInfo → IoManager → IoManager
pause_found sockid none m = m
pause_found sockid (some s) m =
    if not (has sockid m.manuallypaused)
    then put sockid (some (record s { paused = true })) (record m {
      manuallypaused = insert sockid m.manuallypaused;
      polling = remove_fd s.fd m.polling;
    })
    else m

abbrev pub pause : ℕ → IoManager → IoManager
pause sockid m = pause_found sockid (m.socketinfomap sockid) m

-- The descriptor of a socket that goes on is polled again.
abbrev pub add_for : Direction → Fd → ℕ → FdMap → FdMap
add_for dir_in fd sockid polls = add_fd_in fd (some sockid) polls
add_for dir_out fd sockid polls = add_fd_out fd (some sockid) polls

abbrev pub resume_found : ℕ → Option SocketInfo → IoManager → IoManager
resume_found sockid none m = m
resume_found sockid (some s) m =
    let m' = record m { manuallypaused = erase sockid m.manuallypaused } in
    if not (has sockid m.autopaused)
    then put sockid (some (record s { paused = false }))
        (polled (add_for s.direction s.fd sockid m.polling) m')
    else m'

abbrev pub resume : ℕ → IoManager → IoManager
resume sockid m = resume_found sockid (m.socketinfomap sockid) m

abbrev pub repolled : ℕ → SocketInfo → Option ℕ → FdMap → FdMap
repolled sockid s none polls = polls
repolled sockid s (some er) polls = add_for s.direction s.fd sockid polls

-- One round of the loop of `workerReady`.
abbrev pub wake_found : ℕ → Option SocketInfo → IoManager → IoManager
wake_found sockid none m = m
wake_found sockid (some s) m =
    if not (has sockid m.manuallypaused)
    then put sockid (some (record s { paused = false }))
        (polled (repolled sockid s s.receiver m.polling) m)
    else m

abbrev pub wake_all : List ℕ → IoManager → IoManager
wake_all [] m = m
wake_all (sockid ∷ sockids) m = wake_all sockids (wake_found sockid (m.socketinfomap sockid) m)

abbrev pub worker_ready : IoManager → IoManager
worker_ready m = record (wake_all m.autopaused m) { autopaused = [] }
