-- ===== src/Core/BlockingQueue/Order.antt =====
-- A queue whose counts fit gives back what was put in, in its order.
use cbbncd.Base.{ℕ, zero, suc, ◌≡◌, refl, List, [], ◌∷◌, length, length-append, arith}
use cbbncd.Core.BlockingQueue.{BlockingQueue, Popped, blocks, no_front, popped, push, waited}

module _ {A : Type 0} where
  -- Both counts are the length.
  abbrev pub IsCounted : BlockingQueue A → Type 0
  IsCounted q = (q.queuesize ≡ length q.queue) × (q.content ≡ length q.queue)

  pub push-IsCounted : (t : A) (q : BlockingQueue A) → IsCounted q → IsCounted (push t q)
  push-IsCounted t q (n, k) = (
    omega (arith, n, length-append q.queue (t ∷ [])),
    omega (arith, k, length-append q.queue (t ∷ [])),
  )

  -- The queue gives its first item, if it has one, and waits otherwise.
  abbrev pub Gives : List A → Popped A → Type 0
  Gives items blocks = items ≡ []
  Gives items no_front = ⊥
  Gives items (popped t q) = (items ≡ t ∷ q.queue) × IsCounted q

  pub waited-Gives :
      (items : List A) (size content : ℕ)
      → size ≡ length items
      → content ≡ length items
      → Gives items (waited items size content)
  waited-Gives [] size (suc content) n k = absurd (omega arith)
  waited-Gives [] size zero n k = refl
  waited-Gives (t ∷ rest) size zero n k = absurd (omega arith)
  waited-Gives (t ∷ rest) size (suc content) n k = (refl, (omega arith, omega arith))
