-- ===== src/Core/DataBlockPool.antt =====
-- core/datablockpool.cpp and core/datablock.cpp: the blocks for received data. A block is its
-- address; `malloc` is a parameter, asked with the number of the block. The lock, under which every
-- operation runs, is left out.
pub mod Ledger
use cbbncd.Base.{ℕ, zero, suc, ◌+◌, ◌-◌, List, [], ◌∷◌, ◌++◌}

pub record DataBlockPool : Type 0 where
  pub blocks : List ℕ
  pub availableblocks : List ℕ
  pub totalblocks : ℕ

-- `n` rounds of the loop of `allocateNewBlocks`.
unfoldable pub allocate : (ℕ → ℕ) → ℕ → DataBlockPool → DataBlockPool
allocate malloc zero p = p
allocate malloc (suc n) p =
    let block = malloc p.totalblocks in
    allocate malloc n (record {
      blocks = p.blocks ++ block ∷ [];
      availableblocks = p.availableblocks ++ block ∷ [];
      totalblocks = p.totalblocks + 1;
    })

unfoldable pub allocate_new_blocks : (ℕ → ℕ) → DataBlockPool → DataBlockPool
unfolding allocate
allocate_new_blocks malloc p = allocate malloc 10 p

-- `new DataBlockPool()`.
unfoldable pub new_pool : (ℕ → ℕ) → DataBlockPool
unfolding allocate_new_blocks
new_pool malloc =
    allocate_new_blocks malloc (record { blocks = []; availableblocks = []; totalblocks = 0 })

-- `back()` and `pop_back()` of a list with the first element `block`.
unfoldable pub pop_back : ℕ → List ℕ → ℕ × List ℕ
pop_back block [] = (block, [])
pop_back block (next ∷ rest) = let (last, before) = pop_back next rest in (last, block ∷ before)

abbrev pub taken_from : DataBlockPool → ℕ × List ℕ → ℕ × DataBlockPool
taken_from p (block, rest) = (block, record p { availableblocks = rest })

-- Where nothing is available after the allocation, `back()` is undefined; 0 stands for that.
abbrev pub take_block : DataBlockPool → List ℕ → ℕ × DataBlockPool
take_block p [] = (0, p)
take_block p (block ∷ rest) = taken_from p (pop_back block rest)

abbrev pub refilled : (ℕ → ℕ) → DataBlockPool → List ℕ → DataBlockPool
refilled malloc p [] = allocate_new_blocks malloc p
refilled malloc p (block ∷ rest) = p

unfoldable pub get_block : (ℕ → ℕ) → DataBlockPool → ℕ × DataBlockPool
unfolding pop_back allocate_new_blocks
get_block malloc p =
    let p' = refilled malloc p p.availableblocks in take_block p' p'.availableblocks

unfoldable pub return_block : ℕ → DataBlockPool → DataBlockPool
return_block block p = record p { availableblocks = p.availableblocks ++ block ∷ [] }

-- core/datablock.cpp.
pub record DataBlock : Type 0 where
  pub datap : ℕ
  pub datalen : ℕ
  pub offset : ℕ

abbrev pub block_data : DataBlock → ℕ
block_data b = b.datap + b.offset

abbrev pub data_length : DataBlock → ℕ
data_length b = b.datalen - b.offset

abbrev pub consume : ℕ → DataBlock → DataBlock
consume consumed b = record b { offset = b.offset + consumed }
