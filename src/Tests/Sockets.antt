-- ===== src/Tests/Sockets.antt =====
-- The sockets of the IOManager.
use cbbncd.Base.{
  ℕ, zero, suc, ◌+◌, ◌*◌, ◌≡◌, refl, sym, ap, subst, ◌∙◌, List, [], ◌∷◌, Bool, true, false, ◌||◌,
  none, some, if◌then◌else◌, arith, inl, inr,
}
use cbbncd.Base.Text.{codes}
use cbbncd.Core.DataBlockPool.{DataBlockPool}
use cbbncd.Core.SocketInfo.{SocketInfo, new_socket, tcp_plain}
use cbbncd.Core.WorkManager.{new_manager}
use cbbncd.Core.IoManager.{IoManager, put, set_poll_read}
use cbbncd.Core.IoManager.SslError.{want_write}
use cbbncd.Core.IoManager.Sending.{
  Written, wrote, SslWritten, ssl_wrote, ssl_failed, written_of, block_of, send_data,
  handle_tcp_plain_out, handle_tcp_ssl_out, out_loop,
}
use cbbncd.Core.IoManager.Pending.{IsWhole, payload}
use cbbncd.Core.IoManager.Storing.{Stores, send_data-Stores}
use cbbncd.Core.IoManager.Writing.{Writes, handle_tcp_plain_out-Writes, handle_tcp_ssl_out-Writes}
use cbbncd.Core.IoManager.Timeouts.{tick}
use cbbncd.Core.IoManager.Elapsing.{times_out, time_of, later}
use cbbncd.Core.IoManager.Expiry.{tick-Expires}
use cbbncd.Core.IoManager.Pausing.{
  Step, pauses, resumes, readies, overloads, sends, steps, steps-IsOrderly,
}
use cbbncd.Core.IoManager.Holding.{by_hand, by_load, steps-Holds}
use cbbncd.Core.IoManager.Marking.{IsOrderly, never_true}
use cbbncd.Core.IoManager.{worker_ready}
use cbbncd.Core.IoManager.Waking.{IsPolled, worker_ready-Wakes}
use cbbncd.Core.IoManager.Pauses.{put_cases, no_entry}

abbrev address : ℕ → ℕ
address n = 65536 + 16384 * n

abbrev pool : DataBlockPool
pool = record { blocks = []; availableblocks = []; totalblocks = 0 }

abbrev socket : SocketInfo
socket = record new_socket {
  type = tcp_plain;
  fd = some 5;
  id = some 0;
  receiver = some 1;
  sendqueue = block_of 65536 (codes "abc") ∷ block_of 81920 (codes "de") ∷ [];
}

abbrev empty : IoManager
empty = record {
  polling = λ fd. none;
  socketinfomap = λ id. none;
  connecttimemap = [];
  autopaused = [];
  manuallypaused = [];
  workmanager = new_manager pool;
  sendblockpool = pool;
  sockidcounter = 1;
  sessions = [];
  sessionkeycounter = 0;
  in_init = λ ssl. false;
  syscalls = [];
}

abbrev sockets : IoManager
sockets = put 0 (some socket) empty

-- Three bytes, and then one of two.
abbrev write : ℕ → Written
write zero = wrote 3
write (suc k) = wrote 1

abbrev tls_write : ℕ → SslWritten
tls_write zero = ssl_wrote 2
tls_write (suc k) =
    ssl_failed (record { error = want_write; errno = 0; is_abrupt = false; text = codes "" })

abbrev whole : IsWhole socket.sendqueue
whole = (refl, omega arith, (refl, omega arith, tt))

handle_tcp_plain_out_runs :
    payload (handle_tcp_plain_out write true 0 socket sockets).syscalls ≡ codes "abcd"
unfolding handle_tcp_plain_out out_loop
handle_tcp_plain_out_runs = refl

handle_tcp_plain_out-Writes_example :
    Writes write 0 socket sockets (handle_tcp_plain_out write true 0 socket sockets)
handle_tcp_plain_out-Writes_example = handle_tcp_plain_out-Writes write 0 socket sockets true whole

handle_tcp_ssl_out-Writes_example :
    Writes
      (λ k. written_of (tls_write k))
      0
      socket
      sockets
      (handle_tcp_ssl_out tls_write 0 socket sockets)
handle_tcp_ssl_out-Writes_example = handle_tcp_ssl_out-Writes tls_write 0 socket sockets whole

send_data-Stores_example :
    (r : Bool × IoManager) × (send_data address 0 (codes "fg") sockets ≡ some r)
    × Stores 0 socket (codes "fg") r
send_data-Stores_example =
    send_data-Stores address 0 (codes "fg") socket sockets refl whole (omega arith)

-- A socket that has been connecting for 4.9 seconds, and one that has just begun.
abbrev connecting : IoManager
connecting = record (put 1 (some (record socket { id = some 1; fd = some 6 })) sockets) {
  connecttimemap = (0, some 4900) ∷ (1, some 0) ∷ [];
}

both_there :
    (id : ℕ)
    → times_out id connecting.connecttimemap ≡ true
    → (s : SocketInfo) × (connecting.socketinfomap id ≡ some s)
both_there id h =
    let z : id ≡ 0 = ground (arith, h) in
    (socket, subst (λ k. connecting.socketinfomap k ≡ some socket) (sym z) refl)

tick-Expires_example :
    (m' : IoManager) × (tick connecting ≡ some m')
    × ((id : ℕ)
        → (m'.socketinfomap id ≡ (
            if times_out id connecting.connecttimemap then none else connecting.socketinfomap id))
          × (time_of id m'.connecttimemap ≡ (
              if times_out id connecting.connecttimemap
              then none
              else later (time_of id connecting.connecttimemap))))
tick-Expires_example = tick-Expires connecting both_there

-- One socket that is polled for input.
abbrev polled_socket : IoManager
polled_socket = set_poll_read 0 (record socket { sendqueue = [] }) empty

abbrev polled_info : SocketInfo
polled_info = record socket { sendqueue = [] }

only_entry :
    (id : ℕ) (t : SocketInfo)
    → polled_socket.socketinfomap id ≡ some t
    → (0 ≡ id) × (polled_info ≡ t)
only_entry id t e = elim (put_cases 0 id polled_info t empty e) [
  | inl h ↦ h
  | inr h ↦ absurd (no_entry h.1)
]

orderly : IsOrderly polled_socket
orderly = (
  (λ id t e. sym (ap (λ (r : SocketInfo). r.paused) (only_entry id t e).1)),
  (
    (λ a b fd t u ea eb ft fu. sym (only_entry a t ea).0 ∙ (only_entry b u eb).0),
    (λ id fd t e paused ft.
        absurd (never_true (ap (λ (r : SocketInfo). r.paused) (only_entry id t e).1 ∙ paused))),
  ),
)

abbrev calls : List Step
calls = overloads 0 ∷ pauses 0 ∷ readies ∷ sends address 0 (codes "ab") ∷ resumes 0 ∷ []

steps-Holds_example :
    IsOrderly (steps calls polled_socket)
    × ((id : ℕ) (t : SocketInfo)
        → (steps calls polled_socket).socketinfomap id ≡ some t
        → t.paused ≡ (by_load id calls false || by_hand id calls false))
steps-Holds_example = steps-Holds calls polled_socket orderly

-- The socket when the worker does not keep up.
abbrev overloaded_info : SocketInfo
overloaded_info = record polled_info { paused = true }

abbrev overloaded_socket : IoManager
overloaded_socket = steps (overloads 0 ∷ []) polled_socket

worker_ready-Wakes_example :
    (t : SocketInfo) × ((worker_ready overloaded_socket).socketinfomap 0 ≡ some t)
    × (t.paused ≡ false)
    × (t.direction ≡ overloaded_info.direction)
    × IsPolled overloaded_info.direction 0 5 (worker_ready overloaded_socket).polling
worker_ready-Wakes_example =
    worker_ready-Wakes 0 5 1 overloaded_info overloaded_socket
      (steps-IsOrderly (overloads 0 ∷ []) polled_socket orderly) refl refl refl refl refl
