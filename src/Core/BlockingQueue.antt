-- ===== src/Core/BlockingQueue.antt =====
-- core/blockingqueue.h and core/semaphore.h. A semaphore is its count, and the lock, under which
-- every operation runs, is left out.
pub mod Order
use cbbncd.Base.{ℕ, zero, suc, ◌+◌, ◌-◌, List, [], ◌∷◌, ◌++◌}

pub record BlockingQueue {ℓ} (A : Type ℓ) : Type ℓ where
  pub queue : List A
  pub queuesize : ℕ
  pub content : ℕ

-- How a call of `pop` ends: it waits for the semaphore, takes the front of an empty list, which is
-- undefined, or returns.
pub data Popped {ℓ} (A : Type ℓ) : Type ℓ where
  blocks : Popped A
  no_front : Popped A
  popped : A → BlockingQueue A → Popped A

module _ {ℓ} {A : Type ℓ} where
  abbrev pub new_queue : BlockingQueue A
  new_queue = record { queue = []; queuesize = 0; content = 0 }

  abbrev pub push : A → BlockingQueue A → BlockingQueue A
  push t q = record {
    queue = q.queue ++ t ∷ [];
    queuesize = q.queuesize + 1;
    content = q.content + 1;
  }

  abbrev pub front : List A → ℕ → ℕ → Popped A
  front [] size content = no_front
  front (t ∷ rest) size content =
      popped t (record { queue = rest; queuesize = size - 1; content = content })

  abbrev pub waited : List A → ℕ → ℕ → Popped A
  waited items size zero = blocks
  waited items size (suc content) = front items size content

  abbrev pub pop : BlockingQueue A → Popped A
  pop q = waited q.queue q.queuesize q.content
