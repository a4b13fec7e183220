-- ===== src/Core/IoManager/Sending.antt =====
-- The send queue of a socket: IOManager::sendData, handleTCPPlainOut and handleTCPSSLOut.
use cbbncd.Base.{
  ℕ, zero, suc, ◌+◌, ◌*◌, List, [], ◌∷◌, ◌++◌, length, take, drop, Bool, true, false, not, Option,
  none, some, ltb, leb, if◌then◌else◌,
}
use cbbncd.Base.Text.{Bytes}
use cbbncd.Core.SocketInfo.{SocketType, SocketInfo, tcp_plain, tcp_plain_listen, tcp_ssl}
use cbbncd.Core.DataBlockPool.{
  DataBlockPool, DataBlock, data_length, consume, get_block, return_block,
}
use cbbncd.Core.WorkManager.{dispatch_event_disconnected, dispatch_event_send_complete}
use cbbncd.Core.IoManager.SslError.{
  DisconnectType, no_disconnect, reason_number, SslFailure, Investigated, investigate_ssl_error,
}
use cbbncd.Core.IoManager.{
  SysCall, write_fd, ssl_write, IoManager, put, working, set_poll_read, set_poll_write,
  close_socket_intern,
}

abbrev pub Queue : Type 0
Queue = List (DataBlock × Bytes)

abbrev pub block_of : ℕ → Bytes → DataBlock × Bytes
block_of address chunk = (record { datap = address; datalen = length chunk; offset = 0 }, chunk)

-- The loop of `sendData`, on fuel, for a size of blocks. `malloc` is that of the pool.
unfoldable pub queue_blocks :
    (ℕ → ℕ) → ℕ → ℕ → Bytes → Queue → DataBlockPool → Queue × DataBlockPool
queue_blocks malloc sendblocksize zero bytes queue pool = (queue, pool)
queue_blocks malloc sendblocksize (suc fuel) [] queue pool = (queue, pool)
queue_blocks malloc sendblocksize (suc fuel) (b ∷ bytes) queue pool =
    let (address, pool') = get_block malloc pool in
    queue_blocks malloc sendblocksize fuel (drop sendblocksize (b ∷ bytes))
      (queue ++ block_of address (take sendblocksize (b ∷ bytes)) ∷ []) pool'

abbrev pub is_sending : SocketType → Bool
is_sending tcp_plain = true
is_sending tcp_plain_listen = true
is_sending tcp_ssl = true
is_sending type = false

abbrev pub sent_queue : ℕ → SocketInfo → IoManager → Queue × DataBlockPool → Bool × IoManager
sent_queue sockid s m (queue, pool) =
    let s' = record s { sendqueue = queue } in
    let m' = put sockid (some s') (record m { sendblockpool = pool }) in
    (
      leb (length queue * 16384) 1048576,
      if is_sending s.type then set_poll_write sockid s' m' else m',
    )

abbrev pub send_found : (ℕ → ℕ) → ℕ → Bytes → Option SocketInfo → IoManager → Bool × IoManager
send_found malloc sockid bytes none m = (true, m)
send_found malloc sockid bytes (some s) m =
    sent_queue sockid s m
      (queue_blocks malloc 16384 (length bytes) bytes s.sendqueue m.sendblockpool)

-- None: more than MAX_SEND_BUFFER bytes, and the assertion fails.
unfoldable pub send_data : (ℕ → ℕ) → ℕ → Bytes → IoManager → Option (Bool × IoManager)
unfolding queue_blocks
send_data malloc sockid bytes m =
    if leb (length bytes) 1048576
    then some (send_found malloc sockid bytes (m.socketinfomap sockid) m)
    else none

-- What a call of `write` returns: a number of bytes, EAGAIN or EWOULDBLOCK, or another error, with
-- what is told of it and whether `sslshutdown` becomes false.
pub data Written : Type 0 where
  wrote : ℕ → Written
  again : Written
  write_error : DisconnectType → Bool → Bytes → Written

-- How the loop over the send queue ends: the queue is empty, the rest has to wait, or the socket
-- has failed.
pub data Ending : Type 0 where
  drained : Ending
  stuck : Ending
  broken : DisconnectType → Bool → Bytes → Ending

pub record OutLoop : Type 0 where
  pub queue : Queue
  pub pool : DataBlockPool
  pub syscalls : List SysCall
  pub ending : Ending

-- What the `k`th call of write leads to for the first block, with the rounds that follow it.
abbrev pub out_round :
    (Bytes → SysCall) → Written → DataBlock × Bytes → Queue → DataBlockPool → OutLoop → OutLoop
out_round call again block queue pool rest = record {
  queue = block ∷ queue;
  pool = pool;
  syscalls = [];
  ending = stuck;
}
out_round call (write_error type forgets e) block queue pool rest = record {
  queue = block ∷ queue;
  pool = pool;
  syscalls = [];
  ending = broken type forgets e;
}
out_round call (wrote n) (block, content) queue pool rest =
    let written = call (take n (drop block.offset content)) in
    if ltb n (data_length block)
    then record {
      queue = (consume n block, content) ∷ queue;
      pool = pool;
      syscalls = written ∷ [];
      ending = stuck;
    }
    else record rest { syscalls = written ∷ rest.syscalls }

-- The loop of `handleTCPPlainOut`, and of `handleTCPSSLOut`.
unfoldable pub out_loop : (Bytes → SysCall) → (ℕ → Written) → ℕ → Queue → DataBlockPool → OutLoop
out_loop call write k [] pool = record { queue = []; pool = pool; syscalls = []; ending = drained }
out_loop call write k ((block, content) ∷ queue) pool =
    out_round call (write k) (block, content) queue pool
      (out_loop call write (k + 1) queue (return_block block.datap pool))

-- The socket has failed.
abbrev pub fail_out : ℕ → SocketInfo → DisconnectType → Bytes → IoManager → IoManager
fail_out sockid s type errortext m = close_socket_intern sockid (
    if not s.closing
    then working
        (dispatch_event_disconnected s.receiver sockid (reason_number type) errortext s.prio
          m.workmanager)
        m
    else m)

-- The queue is empty.
abbrev pub sent_all : ℕ → Bool → SocketInfo → IoManager → IoManager
sent_all sockid readafter s m =
    if s.closing
    then close_socket_intern sockid m
    else let m' = if readafter then set_poll_read sockid s m else m in
      working (dispatch_event_send_complete s.receiver sockid s.prio m'.workmanager) m'

abbrev pub after_loop : ℕ → Bool → SocketInfo → Ending → IoManager → IoManager
after_loop sockid readafter s drained m = sent_all sockid readafter s m
after_loop sockid readafter s stuck m = m
after_loop sockid readafter s (broken type forgets e) m =
    let s' = if forgets then record s { sslshutdown = false } else s in
    fail_out sockid s' type e (put sockid (some s') m)

-- The queue, the pool and the calls after the loop.
abbrev pub looped : ℕ → SocketInfo → OutLoop → IoManager → IoManager
looped sockid s r m =
    put sockid (some (record s { sendqueue = r.queue }))
      (record m { sendblockpool = r.pool; syscalls = m.syscalls ++ r.syscalls })

abbrev pub handle_out :
    (Bytes → SysCall) → (ℕ → Written) → Bool → ℕ → SocketInfo → IoManager → IoManager
handle_out call write readafter sockid s m =
    let r = out_loop call write 0 s.sendqueue m.sendblockpool in
    after_loop sockid readafter (record s { sendqueue = r.queue }) r.ending (looped sockid s r m)

-- `handleTCPPlainOut`, with what the calls of `write` return.
unfoldable pub handle_tcp_plain_out : (ℕ → Written) → Bool → ℕ → SocketInfo → IoManager → IoManager
unfolding out_loop
handle_tcp_plain_out write readafter sockid s m =
    handle_out (write_fd s.fd) write readafter sockid s m

-- What SSL_write returns: a number of bytes that is not 0, or a failure.
pub data SslWritten : Type 0 where
  ssl_wrote : ℕ → SslWritten
  ssl_failed : SslFailure → SslWritten

abbrev pub of_investigated : DisconnectType → Investigated → Written
of_investigated no_disconnect i = again
of_investigated type i = write_error type i.forgets_shutdown i.errortext

abbrev pub written_of : SslWritten → Written
written_of (ssl_wrote n) = wrote n
written_of (ssl_failed f) = let i = investigate_ssl_error f in of_investigated i.type i

-- `handleTCPSSLOut`.
unfoldable pub handle_tcp_ssl_out : (ℕ → SslWritten) → ℕ → SocketInfo → IoManager → IoManager
unfolding out_loop
handle_tcp_ssl_out write sockid s m =
    handle_out (ssl_write s.ssl) (λ k. written_of (write k)) true sockid s m
