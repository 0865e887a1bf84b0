-- ===== src/Runtime/Pool.antt =====
-- runtime/parena_runtime.c under PARENA_NO_MALLOC: the static pool. `used` and `run` are the cells of
-- `g_pool_used` and `g_pool_run`, a pointer into the pool is the index of its block, and the pool has
-- as many blocks as `used` has cells.
pub mod Scan
pub mod Grants
pub mod Accounts
pub mod Tests
use parena.Prelude.{
  ℕ, zero, suc, ◌+◌, ◌-◌, ◌*◌, ◌/◌, ◌%◌, ◌^◌, Bool, true, false, ◌||◌, List, [], ◌∷◌, Option, none,
  some, ltb, ◌==◌, if◌then◌else◌, length, get_or, set,
}

-- PARENA_STATIC_BLOCK_BYTES at its default.
abbrev pub block_bytes : ℕ
block_bytes = 8192

pub record Pool : Type 0 where
  pub used : List Bool
  pub run : List ℕ
  pub in_use : ℕ
  pub high : ℕ

-- The pool as the program starts, from the cells of its two tables.
unfoldable pub empty_pool : List Bool → List ℕ → Pool
empty_pool used run = record { used = used; run = run; in_use = 0; high = 0 }

-- The scan for `need` free cells in a row: the cells from `i` on, and the length of the run so far.
unfoldable pub scan : List Bool → ℕ → ℕ → ℕ → Option ℕ
scan [] i r need = none
scan (true ∷ us) i r need = scan us (i + 1) 0 need
scan (false ∷ us) i r need =
    let more = scan us (i + 1) (r + 1) need in if r + 1 == need then some (i + 1 - need) else more

-- for (j = first; j < first + n; j++) cells[j] = v;
unfoldable pub set_range : List Bool → ℕ → ℕ → Bool → List Bool
set_range cells first zero v = cells
set_range cells first (suc n) v = set_range (set cells first v) (first + 1) n v

-- The number of blocks for a request; the sum is that of a 64-bit `size_t`.
unfoldable pub blocks_for : ℕ → ℕ
blocks_for bytes = (bytes + block_bytes - 1) % 2 ^ 64 / block_bytes

-- The pool after a run of `need` blocks is handed out at `first`.
unfoldable pub take_run : Pool → ℕ → ℕ → Pool
take_run p first need =
    let in_use = p.in_use + need * block_bytes in
    record {
      used = set_range p.used first need true;
      run = set p.run first need;
      in_use = in_use;
      high = if ltb p.high in_use then in_use else p.high;
    }

abbrev pub taken_at : Pool → ℕ → Option ℕ → Option (ℕ × Pool)
taken_at p need none = none
taken_at p need (some first) = some (first, take_run p first need)

unfoldable pub static_alloc : Pool → ℕ → Option (ℕ × Pool)
static_alloc p bytes =
    let need = blocks_for bytes in
    if need == 0 || ltb 65535 need then none else taken_at p need (scan p.used 0 0 need)

unfoldable pub parena_static_pool_used : Pool → ℕ
parena_static_pool_used p = p.in_use

unfoldable pub parena_static_pool_high_water : Pool → ℕ
parena_static_pool_high_water p = p.high

-- `p` points at the block `first`. The source's `in_use` is unsigned, and does not wrap while it
-- counts the used cells.
unfoldable pub static_free : Pool → ℕ → Pool
static_free p first =
    let n = get_or p.run first 0 in
    record {
      used = set_range p.used first n false;
      run = set p.run first 0;
      in_use = p.in_use - n * block_bytes;
      high = p.high;
    }
