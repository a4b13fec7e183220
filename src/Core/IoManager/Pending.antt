-- ===== src/Core/IoManager/Pending.antt =====
-- The bytes that wait in a send queue: they are written in their order, each once.
use cbbncd.Base.{
  ℕ, zero, suc, ◌+◌, ◌*◌, ◌≤◌, ◌≡◌, refl, sym, ap, ap₂, ◌∙◌, subst, ◌≡⟨◌⟩◌, ◌∎, List, [], ◌∷◌, ◌++◌,
  append_assoc, append-nil, length, length-append, take, drop, take-append-drop, length-take,
  length-drop, ltb, by_test, arith,
}
use cbbncd.Base.Text.{Bytes}
use cbbncd.Core.DataBlockPool.{DataBlockPool, DataBlock, data_length, get_block, return_block}
use cbbncd.Core.IoManager.{
  SysCall, close_fd, ssl_shutdown, ssl_free, freeaddrinfo, write_fd, ssl_write,
}
use cbbncd.Core.IoManager.Sending.{
  Queue, block_of, queue_blocks, Written, wrote, again, write_error, Ending, drained, stuck, broken,
  OutLoop, out_round, out_loop,
}

-- The bytes that are still to be written.
abbrev pub pending : Queue → Bytes
pending [] = []
pending ((block, content) ∷ queue) = drop block.offset content ++ pending queue

-- The bytes that were written.
abbrev pub payload : List SysCall → Bytes
payload [] = []
payload (write_fd fd bytes ∷ calls) = bytes ++ payload calls
payload (ssl_write ssl bytes ∷ calls) = bytes ++ payload calls
payload (close_fd fd ∷ calls) = payload calls
payload (ssl_shutdown ssl ∷ calls) = payload calls
payload (ssl_free ssl ∷ calls) = payload calls
payload (freeaddrinfo info ∷ calls) = payload calls

-- A block knows the length of its bytes, which are no more than fit in it.
abbrev pub IsWhole : Queue → Type 0
IsWhole [] = Unit {0}
IsWhole ((block, content) ∷ queue) =
    (block.datalen ≡ length content) × (length content ≤ 16384) × IsWhole queue

pub pending-append : (p q : Queue) → pending (p ++ q) ≡ pending p ++ pending q
pending-append [] q = refl
pending-append ((block, content) ∷ p) q =
    ap (λ s. drop block.offset content ++ s) (pending-append p q)
    ∙ sym (append_assoc (drop block.offset content) _ _)

pub IsWhole-append : (p q : Queue) → IsWhole p → IsWhole q → IsWhole (p ++ q)
IsWhole-append [] q h k = k
IsWhole-append ((block, content) ∷ p) q (e, n, h) k = (e, n, IsWhole-append p q h k)

pub pending_short : (q : Queue) → IsWhole q → length (pending q) ≤ length q * 16384
pending_short [] h = omega arith
pending_short ((block, content) ∷ q) (e, n, h) = omega (
  arith,
  n,
  pending_short q h,
  length-append (drop block.offset content) (pending q),
  length-drop block.offset content,
)

-- What `sendData` puts into the queue is behind the rest, whole.
abbrev pub Queued : Bytes → Queue → Queue × DataBlockPool → Type 0
Queued bytes queue (queue', pool) = (pending queue' ≡ pending queue ++ bytes) × IsWhole queue'

pub queue_blocks-Queued :
    (malloc : ℕ → ℕ) (size fuel : ℕ) (bytes : Bytes) (queue : Queue) (pool : DataBlockPool)
    → 1 ≤ size
    → size ≤ 16384
    → length bytes ≤ fuel
    → IsWhole queue
    → Queued bytes queue (queue_blocks malloc size fuel bytes queue pool)
unfolding queue_blocks
queue_blocks-Queued malloc size zero [] queue pool one small n h =
    (sym (append-nil (pending queue)), h)
queue_blocks-Queued malloc size zero (b ∷ bytes) queue pool one small n h = absurd (omega arith)
queue_blocks-Queued malloc size (suc fuel) [] queue pool one small n h =
    (sym (append-nil (pending queue)), h)
queue_blocks-Queued malloc size (suc fuel) (b ∷ bytes) queue pool one small n h =
    let got = get_block malloc pool in
    let text = b ∷ bytes in
    let chunk = block_of got.0 (take size text) ∷ [] in
    let chunk_whole : IsWhole chunk = (refl, omega (arith, length-take size text), tt) in
    let (e, w) =
      queue_blocks-Queued malloc size fuel (drop size text) (queue ++ chunk) got.1 one small
        (omega (arith, length-drop size text)) (IsWhole-append queue chunk h chunk_whole) in
    (
      e
          ∙ (ap (λ s. s ++ drop size text) (pending-append queue chunk)
              ∙ (append_assoc (pending queue) (take size text ++ []) (drop size text)
                  ∙ ap (λ s. pending queue ++ s)
                      (ap (λ s. s ++ drop size text) (append-nil (take size text))
                        ∙ take-append-drop size text))),
      w,
    )

drop_nil : {A : Type 0} (n : ℕ) → drop {A = A} n [] ≡ []
drop_nil zero = refl
drop_nil (suc n) = refl

-- A drop after a drop.
drop-drop : {A : Type 0} (m n : ℕ) (xs : List A) → drop n (drop m xs) ≡ drop (m + n) xs
drop-drop zero n xs = ap (λ k. drop k xs) (omega arith)
drop-drop (suc m) n [] = drop_nil n ∙ sym (drop_nil (suc m + n))
drop-drop (suc m) n (x ∷ xs) =
    drop-drop m n xs ∙ ap (λ k. drop k (x ∷ xs)) {x = suc (m + n)} (omega arith)

take_all : {A : Type 0} (n : ℕ) (xs : List A) → length xs ≤ n → take n xs ≡ xs
take_all zero [] h = refl
take_all zero (x ∷ xs) h = absurd (omega arith)
take_all (suc n) [] h = refl
take_all (suc n) (x ∷ xs) h = ap (λ s. x ∷ s) (take_all n xs (omega arith))

-- A call that is recorded with these bytes.
abbrev pub IsRecord : (Bytes → SysCall) → Type 0
IsRecord call =
    (bytes : Bytes) (calls : List SysCall) → payload (call bytes ∷ calls) ≡ bytes ++ payload calls

-- A call of write has failed.
abbrev pub IsFailure : Written → Type 0
IsFailure (wrote n) = ⊥
IsFailure again = ⊥
IsFailure (write_error type forgets e) = Unit {0}

-- How the loop ends, for what is left.
abbrev pub Ends : (ℕ → Written) → Queue → Ending → Type 0
Ends write queue drained = queue ≡ []
Ends write queue stuck = Unit {0}
Ends write queue (broken type forgets e) = (k : ℕ) × IsFailure (write k)

abbrev pub Sends : (ℕ → Written) → Queue → OutLoop → Type 0
Sends write queue r =
    (payload r.syscalls ++ pending r.queue ≡ pending queue)
    × IsWhole r.queue
    × Ends write r.queue r.ending

-- The block, after `n` bytes of it were written and after all.
partly :
    (call : Bytes → SysCall) (n offset : ℕ) (content rest : Bytes)
    → IsRecord call
    → payload (call (take n (drop offset content)) ∷ []) ++ (drop (offset + n) content ++ rest)
      ≡ drop offset content ++ rest
partly call n offset content rest c =
    let s = drop offset content in
    payload (call (take n s) ∷ []) ++ (drop (offset + n) content ++ rest)
    ≡⟨ ap₂ (λ a b. a ++ (b ++ rest)) (c (take n s) [] ∙ append-nil (take n s))
        (sym (drop-drop offset n content)) ⟩
      take n s ++ (drop n s ++ rest)
    ≡⟨ sym (append_assoc (take n s) (drop n s) rest) ⟩ (take n s ++ drop n s) ++ rest
    ≡⟨ ap (λ a. a ++ rest) (take-append-drop n s) ⟩ s ++ rest ∎

wholly :
    (call : Bytes → SysCall) (n : ℕ) (s left waiting : Bytes) (calls : List SysCall)
    → IsRecord call
    → length s ≤ n
    → payload calls ++ left ≡ waiting
    → payload (call (take n s) ∷ calls) ++ left ≡ s ++ waiting
wholly call n s left waiting calls c short e =
    payload (call (take n s) ∷ calls) ++ left
    ≡⟨ ap (λ a. a ++ left)
        (c (take n s) calls ∙ ap (λ a. a ++ payload calls) (take_all n s short)) ⟩
      (s ++ payload calls) ++ left
    ≡⟨ append_assoc s (payload calls) left ⟩ s ++ (payload calls ++ left)
    ≡⟨ ap (λ a. s ++ a) e ⟩ s ++ waiting ∎

round-Sends :
    (call : Bytes → SysCall) (write : ℕ → Written) (k : ℕ) (w : Written) (block : DataBlock)
    (content : Bytes) (queue : Queue) (pool : DataBlockPool) (rest : OutLoop)
    → IsRecord call
    → write k ≡ w
    → IsWhole ((block, content) ∷ queue)
    → Sends write queue rest
    → Sends write ((block, content) ∷ queue) (out_round call w (block, content) queue pool rest)
round-Sends call write k again block content queue pool rest c e h r = (refl, h, tt)
round-Sends call write k (write_error type forgets text) block content queue pool rest c e h r =
    (refl, h, (k, subst IsFailure (sym e) tt))
round-Sends call write k (wrote n) block content queue pool rest c e (same, fits, h)
      (sent, whole, ends) =
    by_test (Sends write ((block, content) ∷ queue)) (ltb n (data_length block)) _ _
      (λ _. (partly call n block.offset content (pending queue) c, (same, fits, h), tt))
      (λ full. (
        wholly call n (drop block.offset content) (pending rest.queue) (pending queue) rest.syscalls
            c (ground (arith, full, same, length-drop block.offset content)) sent,
        whole,
        ends,
      ))

pub out_loop-Sends :
    (call : Bytes → SysCall) (write : ℕ → Written) (k : ℕ) (queue : Queue) (pool : DataBlockPool)
    → IsRecord call
    → IsWhole queue
    → Sends write queue (out_loop call write k queue pool)
unfolding out_loop
out_loop-Sends call write k [] pool c h = (refl, tt, refl)
out_loop-Sends call write k ((block, content) ∷ queue) pool c h =
    round-Sends call write k (write k) block content queue pool _ c refl h
      (out_loop-Sends call write (k + 1) queue (return_block block.datap pool) c h.2)
