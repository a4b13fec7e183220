-- ===== src/Core/IoManager/Writing.antt =====
-- What handleTCPPlainOut and handleTCPSSLOut write.
use cbbncd.Base.{
  ℕ, ◌≡◌, refl, sym, ap, ◌∙◌, subst, ◌⊎◌, inl, inr, List, [], ◌++◌, append_assoc, append-nil, Bool,
  true, false, not, none, some, by_test, if◌then◌else◌,
}
use cbbncd.Base.Text.{Bytes}
use cbbncd.Core.WorkManager.{WorkManager, dispatch_event_disconnected, dispatch_event_send_complete}
use cbbncd.Core.SocketInfo.{SocketInfo}
use cbbncd.Core.IoManager.{
  SysCall, write_fd, ssl_write, IoManager, put, working, close_socket_intern, set_poll_read,
}
use cbbncd.Core.IoManager.SslError.{DisconnectType, reason_number}
use cbbncd.Core.IoManager.Sending.{
  Queue, Written, Ending, drained, stuck, broken, OutLoop, out_loop, fail_out, sent_all, after_loop,
  looped, handle_out, handle_tcp_plain_out, SslWritten, written_of, handle_tcp_ssl_out,
}
use cbbncd.Core.IoManager.Pending.{
  pending, payload, IsWhole, IsRecord, IsFailure, Ends, Sends, out_loop-Sends,
}
use cbbncd.Core.IoManager.Closing.{put_self, payload-append, close-Closed}
use cbbncd.Core.IoManager.Storing.{Stays, set_poll_read-Stays}

-- What is left of the bytes of a socket: they wait in its queue; or the socket is closed, because
-- it was to be once all was written, or because a call of write failed.
abbrev pub Left : (ℕ → Written) → ℕ → SocketInfo → Bytes → IoManager → Type 0
Left write sockid s left m =
    ((s' : SocketInfo) × (m.socketinfomap sockid ≡ some s')
      × (pending s'.sendqueue ≡ left)
      × IsWhole s'.sendqueue)
    ⊎ ((m.socketinfomap sockid ≡ none)
        × (((s.closing ≡ true) × (left ≡ [])) ⊎ ((k : ℕ) × IsFailure (write k))))

-- What was written comes first among the bytes of the queue, and what is left follows.
abbrev pub Writes : (ℕ → Written) → ℕ → SocketInfo → IoManager → IoManager → Type 0
Writes write sockid s m m' =
    (calls : List SysCall) × (left : Bytes) × (m'.syscalls ≡ m.syscalls ++ calls)
    × (payload calls ++ left ≡ pending s.sendqueue)
    × Left write sockid s left m'

-- A socket that is closed after the loop.
closed-Writes :
    (write : ℕ → Written) (sockid : ℕ) (s s' : SocketInfo) (calls : List SysCall) (left : Bytes)
    (m m' : IoManager)
    → payload calls ++ left ≡ pending s.sendqueue
    → m'.socketinfomap sockid ≡ some s'
    → m'.syscalls ≡ m.syscalls ++ calls
    → ((s.closing ≡ true) × (left ≡ [])) ⊎ ((k : ℕ) × IsFailure (write k))
    → Writes write sockid s m (close_socket_intern sockid m')
closed-Writes write sockid s s' calls left m m' e found calls_before why =
    let (gone, (more, after, nothing)) = close-Closed sockid s' m' found in
    (
      calls ++ more,
      left,
      after ∙ (ap (λ c. c ++ more) calls_before ∙ append_assoc m.syscalls calls more),
      ap (λ b. b ++ left)
            (payload-append calls more
              ∙ (ap (λ b. payload calls ++ b) nothing ∙ append-nil (payload calls)))
          ∙ e,
      inr (gone, why),
    )

-- A socket that stays.
kept-Writes :
    (write : ℕ → Written) (sockid : ℕ) (s s' : SocketInfo) (calls : List SysCall) (m m' : IoManager)
    → payload calls ++ pending s'.sendqueue ≡ pending s.sendqueue
    → IsWhole s'.sendqueue
    → m'.socketinfomap sockid ≡ some s'
    → m'.syscalls ≡ m.syscalls ++ calls
    → Writes write sockid s m m'
kept-Writes write sockid s s' calls m m' e whole found calls_before =
    (calls, pending s'.sendqueue, calls_before, e, inl (s', found, refl, whole))

-- What the work manager gets does not matter.
staying-Writes :
    (write : ℕ → Written) (sockid : ℕ) (s : SocketInfo) (queue : Queue) (calls : List SysCall)
    (m m' : IoManager) (w : WorkManager)
    → payload calls ++ pending queue ≡ pending s.sendqueue
    → IsWhole queue
    → Stays sockid queue (m.syscalls ++ calls) m'
    → Writes write sockid s m (working w m')
staying-Writes write sockid s queue calls m m' w e whole (s', found, same, before) =
    kept-Writes write sockid s s' calls m (working w m')
      (subst (λ q. payload calls ++ pending q ≡ pending s.sendqueue) (sym same) e)
      (subst IsWhole (sym same) whole) found before

module _ (write : ℕ → Written) (sockid : ℕ) (s : SocketInfo) (m : IoManager) where
  sent_all-Writes :
      (readafter : Bool) (r : OutLoop)
      → Sends write s.sendqueue r
      → r.queue ≡ []
      → Writes write sockid s m
          (sent_all sockid readafter (record s { sendqueue = r.queue }) (looped sockid s r m))
  sent_all-Writes readafter r (e, whole, ends) empty =
      by_test (Writes write sockid s m) s.closing _ _
        (λ closing.
          closed-Writes write sockid s (record s { sendqueue = r.queue }) r.syscalls
            (pending r.queue) m (looped sockid s r m) e (put_self sockid _ m) refl
            (inl (closing, ap pending empty)))
        (λ _.
          let m' =
            if readafter
            then set_poll_read sockid (record s { sendqueue = r.queue }) (looped sockid s r m)
            else looped sockid s r m in
          staying-Writes write sockid s r.queue r.syscalls m m'
            (dispatch_event_send_complete s.receiver sockid s.prio m'.workmanager) e whole
            (by_test (Stays sockid r.queue (looped sockid s r m).syscalls) readafter _ _
              (λ _.
                set_poll_read-Stays sockid (record s { sendqueue = r.queue }) (looped sockid s r m))
              (λ _. (record s { sendqueue = r.queue }, put_self sockid _ m, refl, refl))))

  fail_out-Writes :
      (s' : SocketInfo) (type : DisconnectType) (text : Bytes) (calls : List SysCall) (left : Bytes)
      (m' : IoManager)
      → payload calls ++ left ≡ pending s.sendqueue
      → m'.socketinfomap sockid ≡ some s'
      → m'.syscalls ≡ m.syscalls ++ calls
      → (k : ℕ) × IsFailure (write k)
      → Writes write sockid s m (fail_out sockid s' type text m')
  fail_out-Writes s' type text calls left m' e found before failed =
      let told =
        working
          (dispatch_event_disconnected s'.receiver sockid (reason_number type) text s'.prio
            m'.workmanager)
          m' in
      by_test (λ (m1 : IoManager). Writes write sockid s m (close_socket_intern sockid m1))
        (not s'.closing) told m'
        (λ _. closed-Writes write sockid s s' calls left m told e found before (inr failed))
        (λ _. closed-Writes write sockid s s' calls left m m' e found before (inr failed))

  after_loop-Writes :
      (readafter : Bool) (r : OutLoop) (ending : Ending)
      → Sends write s.sendqueue r
      → Ends write r.queue ending
      → Writes write sockid s m (
          after_loop sockid readafter
            (record s { sendqueue = r.queue })
            ending
            (looped sockid s r m))
  after_loop-Writes readafter r drained sends empty = sent_all-Writes readafter r sends empty
  after_loop-Writes readafter r stuck (e, whole, ends) more =
      kept-Writes write sockid s (record s { sendqueue = r.queue }) r.syscalls m
        (looped sockid s r m) e whole (put_self sockid _ m) refl
  after_loop-Writes readafter r (broken type true text) (e, whole, ends) failed =
      let s' = record s { sendqueue = r.queue; sslshutdown = false } in
      fail_out-Writes s' type text r.syscalls (pending r.queue)
        (put sockid (some s') (looped sockid s r m)) e
        (put_self sockid (some s') (looped sockid s r m)) refl failed
  after_loop-Writes readafter r (broken type false text) (e, whole, ends) failed =
      let s' = record s { sendqueue = r.queue } in
      fail_out-Writes s' type text r.syscalls (pending r.queue)
        (put sockid (some s') (looped sockid s r m)) e
        (put_self sockid (some s') (looped sockid s r m)) refl failed

  handle_out-Writes :
      (call : Bytes → SysCall) (readafter : Bool)
      → IsRecord call
      → IsWhole s.sendqueue
      → Writes write sockid s m (handle_out call write readafter sockid s m)
  handle_out-Writes call readafter c whole =
      let r = out_loop call write 0 s.sendqueue m.sendblockpool in
      let sends = out_loop-Sends call write 0 s.sendqueue m.sendblockpool c whole in
      after_loop-Writes readafter r r.ending sends sends.2

  -- Whatever `write` returns, the bytes that it took are the first ones of the queue, in their order
  -- and each once. The others still wait in the queue, unless the socket is closed: if it was to
  -- be, nothing is left, and otherwise a call of `write` has failed.
  pub handle_tcp_plain_out-Writes :
      (readafter : Bool)
      → IsWhole s.sendqueue
      → Writes write sockid s m (handle_tcp_plain_out write readafter sockid s m)
  unfolding handle_tcp_plain_out
  handle_tcp_plain_out-Writes readafter whole =
      handle_out-Writes (write_fd s.fd) readafter (λ bytes calls. refl) whole

-- The same of the bytes that SSL_write took; what it returned is read by investigateSSLError.
pub handle_tcp_ssl_out-Writes :
    (write : ℕ → SslWritten) (sockid : ℕ) (s : SocketInfo) (m : IoManager)
    → IsWhole s.sendqueue
    → Writes (λ k. written_of (write k)) sockid s m (handle_tcp_ssl_out write sockid s m)
unfolding handle_tcp_ssl_out
handle_tcp_ssl_out-Writes write sockid s m whole =
    handle_out-Writes (λ k. written_of (write k)) sockid s m (ssl_write s.ssl) true
      (λ bytes calls. refl) whole
