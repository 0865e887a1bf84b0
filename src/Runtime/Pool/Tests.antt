-- ===== src/Runtime/Pool/Tests.antt =====
-- Runs of the static pool.
use parena.Prelude.{ℕ, zero, suc, ◌≡◌, refl, true, false, [], ◌∷◌, none, some, arith, get_or}
use parena.Runtime.Pool.{Pool, scan, set_range, blocks_for, take_run, static_alloc, static_free}
use parena.Runtime.Pool.Scan.{HasRun}
use parena.Runtime.Pool.Grants.{Grants, static_alloc-Grants, static_alloc-none}
use parena.Runtime.Pool.Accounts.{IsAccounted, static_alloc-IsAccounted, static_free-static_alloc}

-- Four blocks, the second of which is handed out.
abbrev small : Pool
small = record {
  used = false ∷ true ∷ false ∷ false ∷ [];
  run = 0 ∷ 1 ∷ 0 ∷ 0 ∷ [];
  in_use = 8192;
  high = 8192;
}

abbrev small_taken : Pool
small_taken = record {
  used = false ∷ true ∷ true ∷ true ∷ [];
  run = 0 ∷ 1 ∷ 2 ∷ 0 ∷ [];
  in_use = 24576;
  high = 24576;
}

small_grant : static_alloc small 10000 ≡ some (2, small_taken)
unfolding static_alloc scan blocks_for take_run set_range
small_grant = refl

small_refusal : static_alloc small 20000 ≡ none
unfolding static_alloc scan blocks_for take_run set_range
small_refusal = refl

small-IsAccounted : IsAccounted small
small-IsAccounted = record { sized = refl; idle = idle; counted = refl; covered = omega arith }
  where
    idle : (j : ℕ) → get_or (Pool.used small) j true ≡ false → get_or (Pool.run small) j 0 ≡ 0
    idle zero h = refl
    idle (suc zero) h = absurd (ground arith)
    idle (suc (suc zero)) h = refl
    idle (suc (suc (suc zero))) h = refl
    idle (suc (suc (suc (suc j)))) h = refl

static_alloc-Grants_example : Grants small 10000 2 small_taken
static_alloc-Grants_example = static_alloc-Grants small 10000 (omega arith) small_grant

static_alloc-none_example : ¬ HasRun (blocks_for 20000) (false ∷ true ∷ false ∷ false ∷ [])
static_alloc-none_example = static_alloc-none small 20000 (omega arith) (omega arith) small_refusal

static_alloc-IsAccounted_example : IsAccounted small_taken
static_alloc-IsAccounted_example =
    static_alloc-IsAccounted small 10000 (omega arith) small-IsAccounted small_grant

static_free-static_alloc_example : static_free small_taken 2 ≡ record {
  used = false ∷ true ∷ false ∷ false ∷ [];
  run = 0 ∷ 1 ∷ 0 ∷ 0 ∷ [];
  in_use = 8192;
  high = 24576;
}
static_free-static_alloc_example =
    static_free-static_alloc small 10000 (omega arith) small-IsAccounted small_grant
