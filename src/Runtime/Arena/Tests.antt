-- ===== src/Runtime/Arena/Tests.antt =====
-- Runs of the arena over a static pool of four blocks.
use parena.Prelude.{ℕ, zero, suc, ◌≡◌, refl, true, false, [], ◌∷◌, some, arith, get_or}
use parena.Runtime.Pool.{Pool, scan, set_range, blocks_for, take_run, static_alloc}
use parena.Runtime.Pool.Accounts.{IsAccounted}
use parena.Runtime.Arena.Provider.{pool_view, pool_provider}
use parena.Runtime.Arena.Alloc.{
  Arena, align_up, block_capacity, arena_init, arena_new_block, arena_alloc, arena_free_all,
}
use parena.Runtime.Arena.Bounds.{Carves, arena_alloc-Carves}
use parena.Runtime.Arena.Teardown.{none_yet, one_more, arena_free_all-Allocs}

abbrev all_free : Pool
all_free = record {
  used = false ∷ false ∷ false ∷ false ∷ [];
  run = 0 ∷ 0 ∷ 0 ∷ 0 ∷ [];
  in_use = 0;
  high = 0;
}

abbrev one_taken : Pool
one_taken = record {
  used = true ∷ false ∷ false ∷ false ∷ [];
  run = 1 ∷ 0 ∷ 0 ∷ 0 ∷ [];
  in_use = 8192;
  high = 8192;
}

abbrev one_block : Arena
one_block = record { address = 0; used = 104; capacity = 8128 } ∷ []

first_alloc :
    arena_alloc pool_provider arena_init all_free 100
    ≡ some (record { block = 0; offset = 0 }, one_block, one_taken)
unfolding arena_alloc arena_init arena_new_block align_up block_capacity static_alloc scan
    blocks_for take_run set_range
first_alloc = refl

next_alloc :
    arena_alloc pool_provider one_block one_taken 50
    ≡ some (
      record { block = 0; offset = 104 },
      record { address = 0; used = 160; capacity = 8128 } ∷ [],
      one_taken,
    )
unfolding arena_alloc align_up
next_alloc = refl

all_free-IsAccounted : IsAccounted all_free
all_free-IsAccounted = record { sized = refl; idle = idle; counted = refl; covered = omega arith }
  where
    idle : (j : ℕ) → get_or (Pool.used all_free) j true ≡ false → get_or (Pool.run all_free) j 0 ≡ 0
    idle zero h = refl
    idle (suc zero) h = refl
    idle (suc (suc zero)) h = refl
    idle (suc (suc (suc zero))) h = refl
    idle (suc (suc (suc (suc j)))) h = refl

arena_free_all-Allocs_example :
    pool_view (arena_free_all pool_provider one_block one_taken) ≡ pool_view all_free
arena_free_all-Allocs_example =
    arena_free_all-Allocs pool_provider all_free-IsAccounted
      (one_more 100 (record { block = 0; offset = 0 }) none_yet (omega arith) first_alloc)

arena_alloc-Carves_example :
    Carves one_block 50
      (record { block = 0; offset = 104 })
      (record { address = 0; used = 160; capacity = 8128 } ∷ [])
arena_alloc-Carves_example =
    arena_alloc-Carves pool_provider one_block one_taken 50 (omega arith)
      (record { fits = omega arith; aligned = refl; small = omega arith }, tt) next_alloc
