-- ===== src/Core/IoManager/Storing.antt =====
-- What sendData stores in the queue of a socket.
use cbbncd.Base.{
  ℕ, ◌*◌, ◌≤◌, ◌≡◌, refl, sym, ap, ◌∙◌, subst, List, ◌++◌, length, Bool, true, false, not, Option,
  some, leb, by_test, arith, tests,
}
use cbbncd.Base.Text.{Bytes}
use cbbncd.Core.DataBlockPool.{DataBlockPool}
use cbbncd.Core.SocketInfo.{SocketInfo, dir_in, dir_out}
use cbbncd.Core.IoManager.{SysCall, IoManager, put, set_poll_read, set_poll_write}
use cbbncd.Core.IoManager.Sending.{Queue, is_sending, sent_queue, send_found, send_data}
use cbbncd.Core.IoManager.Pending.{pending, IsWhole, pending_short, Queued, queue_blocks-Queued}
use cbbncd.Core.IoManager.Closing.{put_self}

-- A socket that stays in the map, with its queue, while nothing is written.
abbrev pub Stays : ℕ → Queue → List SysCall → IoManager → Type 0
Stays sockid queue calls m =
    (s : SocketInfo) × (m.socketinfomap sockid ≡ some s)
    × (s.sendqueue ≡ queue)
    × (m.syscalls ≡ calls)

pub set_poll_read-Stays :
    (sockid : ℕ) (s : SocketInfo) (m : IoManager)
    → Stays sockid s.sendqueue m.syscalls (set_poll_read sockid s m)
set_poll_read-Stays sockid s m =
    let s' = record s { direction = dir_in } in
    by_test (Stays sockid s.sendqueue m.syscalls) (not s.paused) _ _
      (λ _. (s', put_self sockid (some s') m, refl, refl))
      (λ _. (s', put_self sockid (some s') m, refl, refl))

pub set_poll_write-Stays :
    (sockid : ℕ) (s : SocketInfo) (m : IoManager)
    → Stays sockid s.sendqueue m.syscalls (set_poll_write sockid s m)
set_poll_write-Stays sockid s m =
    let s' = record s { direction = dir_out } in
    by_test (Stays sockid s.sendqueue m.syscalls) (not s.paused) _ _
      (λ _. (s', put_self sockid (some s') m, refl, refl))
      (λ _. (s', put_self sockid (some s') m, refl, refl))

-- What `sendData` leaves of a socket with the queue: the bytes stand behind those that waited, and
-- if the answer is yes, no more than MAX_SEND_BUFFER bytes wait.
abbrev pub Stores : ℕ → SocketInfo → Bytes → Bool × IoManager → Type 0
Stores sockid s bytes (answer, m') =
    (s' : SocketInfo) × (m'.socketinfomap sockid ≡ some s')
    × (pending s'.sendqueue ≡ pending s.sendqueue ++ bytes)
    × IsWhole s'.sendqueue
    × (answer ≡ true → length (pending s'.sendqueue) ≤ 1048576)

bounded : (n k : ℕ) → k ≤ n * 16384 → leb (n * 16384) 1048576 ≡ true → k ≤ 1048576
bounded n k h e = omega (tests, h, e)

sent_queue-Stores :
    (sockid : ℕ) (s : SocketInfo) (bytes : Bytes) (m : IoManager) (q : Queue × DataBlockPool)
    → Queued bytes s.sendqueue q
    → Stores sockid s bytes (sent_queue sockid s m q)
sent_queue-Stores sockid s bytes m (queue, pool) (e, whole) =
    let s' = record s { sendqueue = queue } in
    let m' = put sockid (some s') (record m { sendblockpool = pool }) in
    let (s1, found, same, calls) =
      by_test (Stays sockid queue m.syscalls) (is_sending s.type) _ m'
        (λ _. set_poll_write-Stays sockid s' m')
        (λ _. (s', put_self sockid (some s') (record m { sendblockpool = pool }), refl, refl)) in
    (
      s1,
      found,
      ap pending same ∙ e,
      subst IsWhole (sym same) whole,
      λ yes.
          subst (λ q. length (pending q) ≤ 1048576) (sym same)
            (bounded (length queue) (length (pending queue)) (pending_short queue whole) yes),
    )

too_much : (n : ℕ) → n ≤ 1048576 → leb n 1048576 ≡ false → ⊥
too_much n h e = ground (arith, h, e)

-- `sendData` for a socket that is there, with at most MAX_SEND_BUFFER bytes: it succeeds, and all
-- of them wait in whole blocks, in their order, behind those that waited before. If it answers
-- yes, no more than MAX_SEND_BUFFER bytes wait.
pub send_data-Stores :
    (malloc : ℕ → ℕ) (sockid : ℕ) (bytes : Bytes) (s : SocketInfo) (m : IoManager)
    → m.socketinfomap sockid ≡ some s
    → IsWhole s.sendqueue
    → length bytes ≤ 1048576
    → (r : Bool × IoManager) × (send_data malloc sockid bytes m ≡ some r) × Stores sockid s bytes r
unfolding send_data
send_data-Stores malloc sockid bytes s m found whole short =
    by_test
      (λ (o : Option (Bool × IoManager)).
        (r : Bool × IoManager) × (o ≡ some r) × Stores sockid s bytes r)
      (leb (length bytes) 1048576) _ _
      (λ _. (
        _,
        refl,
        subst (λ o. Stores sockid s bytes (send_found malloc sockid bytes o m)) (sym found)
            (sent_queue-Stores sockid s bytes m _ (
              queue_blocks-Queued malloc 16384 (length bytes) bytes s.sendqueue m.sendblockpool
                (omega arith) (omega arith) (omega arith) whole)),
      ))
      (λ too_long. absurd (too_much (length bytes) short too_long))
