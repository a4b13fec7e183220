-- ===== src/Tests/Cores.antt =====
-- The pool of data blocks, and the timers.
use cbbncd.Base.{ℕ, ◌+◌, ◌*◌, ◌≡◌, refl, [], ◌∷◌}
use cbbncd.Core.DataBlockPool.{
  DataBlockPool, new_pool, get_block, allocate_new_blocks, allocate, pop_back,
}
use cbbncd.Core.DataBlockPool.Ledger.{Kept, new_pool-Kept, get_block-Kept}
use cbbncd.Base.{true, inl, inr, List, arith}
use cbbncd.Core.TickPoke.{TickPokeTarget, TickPoke, start_poke, poke, tick_targets}
use cbbncd.Core.TickPoke.Pokes.{Holds, Elapses, pokes, total, poke_all, poke_all-Elapses}

abbrev address : ℕ → ℕ
address n = 65536 + 16384 * n

abbrev fresh : DataBlockPool
fresh = new_pool address

get_block_runs : (get_block address fresh).0 ≡ address 9
unfolding get_block new_pool allocate_new_blocks allocate pop_back
get_block_runs = refl

get_block-Kept_example : Kept ((get_block address fresh).0 ∷ []) (get_block address fresh).1
get_block-Kept_example = get_block-Kept address [] fresh (new_pool-Kept address)

-- A timer of 100 ms and one of 250 ms.
abbrev timers : TickPoke
timers = start_poke 2 250 0 (start_poke 1 100 0 (record { targets = []; forever = true }))

abbrev slow : TickPokeTarget
slow = record { pokee = 2; interval = 250; currentval = 0; message = 0 }

abbrev ticks : List ℕ
ticks = 50 ∷ 50 ∷ 50 ∷ 50 ∷ 50 ∷ 50 ∷ []

abbrev slow-Holds : Holds 2 0 slow timers.targets
slow-Holds = inr (refl, inl (refl, refl, tt))

poke_all_runs : pokes 1 0 (poke_all ticks timers).0 ≡ 3
unfolding poke tick_targets
poke_all_runs = refl

poke_all-Elapses_example : Elapses 2 0 slow (total ticks) (poke_all ticks timers)
poke_all-Elapses_example =
    poke_all-Elapses 2 0 ticks slow timers refl slow-Holds (omega arith)
      (omega arith, (omega arith, (omega arith, (omega arith, (omega arith, (omega arith, tt))))))
