-- ===== src/Runtime/Arena/Alloc.antt =====
-- runtime/parena_runtime.c: the operations of the arena.
use parena.Prelude.{
  ℕ, ◌+◌, ◌-◌, ◌*◌, ◌/◌, ◌%◌, ◌^◌, List, [], ◌∷◌, Option, none, some, ltb, if◌then◌else◌,
}
use parena.Runtime.Arena.Provider.{Provider}

pub record Block : Type 0 where
  pub address : ℕ
  pub used : ℕ
  pub capacity : ℕ

-- The blocks from `head` on, the latest first.
abbrev pub Arena : Type 0
Arena = List Block

pub record Pointer : Type 0 where
  pub block : ℕ
  pub offset : ℕ

unfoldable pub arena_init : Arena
arena_init = []

-- (n + 7u) & ~7u in a 64-bit `size_t`.
unfoldable pub align_up : ℕ → ℕ
align_up n = (n + 7) % 2 ^ 64 / 8 * 8

-- PARENA_ARENA_BLOCK_MIN_CAPACITY of the static-pool mode, and sizeof(ParenaArenaBlock): three words,
-- padded to the 64-byte alignment of `data`.
abbrev pub min_capacity : ℕ
min_capacity = 8128

abbrev pub header_bytes : ℕ
header_bytes = 64

unfoldable pub block_capacity : ℕ → ℕ
block_capacity wanted = if ltb min_capacity wanted then wanted else min_capacity

-- The head block at an offset, with `n` more bytes used.
abbrev pub bump_head : ℕ → Block → Arena → Pointer × Arena
bump_head n b bs =
    (record { block = b.address; offset = b.used }, record b { used = (b.used + n) % 2 ^ 64 } ∷ bs)

module _ (P : Provider) where
  open P use {State, grant, release}

  -- `none` is the exit, or trap, of an exhausted provider.
  unfoldable pub arena_new_block : State → ℕ → Option (Block × State)
  arena_new_block s wanted = elim (grant s ((header_bytes + block_capacity wanted) % 2 ^ 64)) [
    | none ↦ none
    | some (a, t) ↦ some (record { address = a; used = 0; capacity = block_capacity wanted }, t)
  ]

  -- A fresh block in front, bumped by `n`.
  abbrev pub in_new_block : ℕ → Arena → Option (Block × State) → Option (Pointer × Arena × State)
  in_new_block n a none = none
  in_new_block n a (some (b, t)) = some ((bump_head n b a).0, (bump_head n b a).1, t)

  unfoldable pub arena_alloc : Arena → State → ℕ → Option (Pointer × Arena × State)
  arena_alloc [] s size = in_new_block (align_up size) [] (arena_new_block s (align_up size))
  arena_alloc (b ∷ bs) s size =
      let n = align_up size in
      if ltb b.capacity ((b.used + n) % 2 ^ 64)
      then in_new_block n (b ∷ bs) (arena_new_block s n)
      else some ((bump_head n b bs).0, (bump_head n b bs).1, s)

  -- The loop of `arena_free_all`.
  unfoldable pub arena_free_all : Arena → State → State
  arena_free_all [] s = s
  arena_free_all (b ∷ bs) s = arena_free_all bs (release s b.address)

  -- The bytes copied are not kept; the allocation leaves room for the NUL behind them.
  unfoldable pub arena_strdup : Arena → State → ℕ → Option (Pointer × Arena × State)
  arena_strdup a s len = arena_alloc a s ((len + 1) % 2 ^ 64)

  abbrev pub wanted_align : ℕ → ℕ
  wanted_align align = if ltb align 8 then 8 else align

  -- (align - (used & (align - 1))) & (align - 1), for a power of two.
  abbrev pub padding : ℕ → ℕ → ℕ
  padding align used = (align - used % align) % align

  -- From the test for room on, with the head block.
  abbrev pub alloc_padded : Block → Arena → State → ℕ → ℕ → Option (Pointer × Arena × State)
  alloc_padded b bs s n pad =
      if ltb b.capacity ((b.used + pad + n) % 2 ^ 64)
      then in_new_block n (b ∷ bs) (arena_new_block s n)
      else some (
        (bump_head n (record b { used = (b.used + pad) % 2 ^ 64 }) bs).0,
        (bump_head n (record b { used = (b.used + pad) % 2 ^ 64 }) bs).1,
        s,
      )

  -- An arena with no block is given one first, by an allocation that is taken back.
  abbrev pub alloc_in_first :
      Option (Pointer × Arena × State) → ℕ → ℕ → Option (Pointer × Arena × State)
  alloc_in_first none n align = none
  alloc_in_first (some (p, [], s)) n align = none
  alloc_in_first (some (p, b ∷ bs, s)) n align =
      alloc_padded (record b { used = 0 }) bs s n (padding align 0)

  unfoldable pub arena_alloc_aligned : Arena → State → ℕ → ℕ → Option (Pointer × Arena × State)
  arena_alloc_aligned [] s size align =
      alloc_in_first (arena_alloc [] s 8) (align_up size) (wanted_align align)
  arena_alloc_aligned (b ∷ bs) s size align =
      alloc_padded b bs s (align_up size) (padding (wanted_align align) b.used)
