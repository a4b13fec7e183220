-- ===== src/Core/DataBlockPool/Ledger.antt =====
-- No block is lost, and none is handed out twice.
use cbbncd.Base.{
  ℕ, zero, suc, ◌+◌, ◌≡◌, refl, List, [], ◌∷◌, ◌++◌, ◌==◌, if◌then◌else◌, arith, subst, sym,
}
use cbbncd.Core.DataBlockPool.{
  DataBlockPool, allocate, allocate_new_blocks, new_pool, pop_back, take_block, refilled, get_block,
  return_block,
}

-- How often a block stands in a list.
abbrev pub count : ℕ → List ℕ → ℕ
count b [] = 0
count b (c ∷ s) = (if b == c then 1 else 0) + count b s

count-append : (b : ℕ) (s t : List ℕ) → count b (s ++ t) ≡ count b s + count b t
count-append b [] t = omega arith
count-append b (c ∷ s) t = omega (arith, count-append b s t)

-- Every block of the pool is either available or held, as often as it was allocated.
abbrev pub Kept : List ℕ → DataBlockPool → Type 0
Kept held p = (b : ℕ) → count b held + count b p.availableblocks ≡ count b p.blocks

allocate-Kept :
    (malloc : ℕ → ℕ) (n : ℕ) (held : List ℕ) (p : DataBlockPool)
    → Kept held p
    → Kept held (allocate malloc n p)
unfolding allocate
allocate-Kept malloc zero held p k = k
allocate-Kept malloc (suc n) held p k =
    let block = malloc p.totalblocks in
    allocate-Kept malloc n held _ (λ b. omega (
      arith,
      k b,
      count-append b p.availableblocks (block ∷ []),
      count-append b p.blocks (block ∷ []),
    ))

pop_back-count :
    (b block : ℕ) (rest : List ℕ)
    → count b ((pop_back block rest).0 ∷ []) + count b (pop_back block rest).1
      ≡ count b (block ∷ rest)
unfolding pop_back
pop_back-count b block [] = omega arith
pop_back-count b block (next ∷ rest) = omega (arith, pop_back-count b next rest)

-- Something is available once ten blocks were allocated.
abbrev IsSome : List ℕ → Type 0
IsSome [] = ⊥
IsSome (b ∷ s) = Unit {0}

IsSome-append : (s t : List ℕ) → IsSome s → IsSome (s ++ t)
IsSome-append [] t h = absurd h
IsSome-append (b ∷ s) t h = tt

allocate-IsSome :
    (malloc : ℕ → ℕ) (n : ℕ) (p : DataBlockPool)
    → IsSome p.availableblocks
    → IsSome (allocate malloc n p).availableblocks
unfolding allocate
allocate-IsSome malloc zero p h = h
allocate-IsSome malloc (suc n) p h =
    allocate-IsSome malloc n _ (IsSome-append p.availableblocks _ h)

abbrev Got : List ℕ → ℕ × DataBlockPool → Type 0
Got held (block, p) = Kept (block ∷ held) p

take_block-Got :
    (held : List ℕ) (p : DataBlockPool) (s : List ℕ)
    → ((b : ℕ) → count b held + count b s ≡ count b p.blocks)
    → IsSome s
    → Got held (take_block p s)
take_block-Got held p [] k h = absurd h
take_block-Got held p (block ∷ rest) k h = λ b. omega (arith, k b, pop_back-count b block rest)

pub new_pool-Kept : (malloc : ℕ → ℕ) → Kept [] (new_pool malloc)
unfolding new_pool allocate_new_blocks
new_pool-Kept malloc =
    allocate-Kept malloc 10 [] (record { blocks = []; availableblocks = []; totalblocks = 0 })
      (λ b. refl)

IsSome-end : (s : List ℕ) (b : ℕ) → IsSome (s ++ b ∷ [])
IsSome-end [] b = tt
IsSome-end (c ∷ s) b = tt

refilled-Kept :
    (malloc : ℕ → ℕ) (held : List ℕ) (p : DataBlockPool) (s : List ℕ)
    → Kept held p
    → Kept held (refilled malloc p s)
unfolding allocate_new_blocks
refilled-Kept malloc held p [] k = allocate-Kept malloc 10 held p k
refilled-Kept malloc held p (block ∷ rest) k = k

refilled-IsSome :
    (malloc : ℕ → ℕ) (p : DataBlockPool) (s : List ℕ)
    → p.availableblocks ≡ s
    → IsSome (refilled malloc p s).availableblocks
unfolding allocate_new_blocks allocate
refilled-IsSome malloc p [] e =
    allocate-IsSome malloc 9
      (record {
        blocks = p.blocks ++ malloc p.totalblocks ∷ [];
        availableblocks = p.availableblocks ++ malloc p.totalblocks ∷ [];
        totalblocks = p.totalblocks + 1;
      })
      (IsSome-end p.availableblocks (malloc p.totalblocks))
refilled-IsSome malloc p (block ∷ rest) e = subst IsSome (sym e) tt

-- A block that is handed out was available or is new; the pool and the holders together have each
-- block as often as it was allocated, so that blocks at different addresses stay apart.
pub get_block-Kept :
    (malloc : ℕ → ℕ) (held : List ℕ) (p : DataBlockPool)
    → Kept held p
    → Kept ((get_block malloc p).0 ∷ held) (get_block malloc p).1
unfolding get_block
get_block-Kept malloc held p k =
    let p' = refilled malloc p p.availableblocks in
    take_block-Got held p' p'.availableblocks (refilled-Kept malloc held p p.availableblocks k)
      (refilled-IsSome malloc p p.availableblocks refl)

-- A block that is given back is available again, and no longer held.
pub return_block-Kept :
    (block : ℕ) (held : List ℕ) (p : DataBlockPool)
    → Kept (block ∷ held) p
    → Kept held (return_block block p)
unfolding return_block
return_block-Kept block held p k =
    λ b. omega (arith, k b, count-append b p.availableblocks (block ∷ []))
