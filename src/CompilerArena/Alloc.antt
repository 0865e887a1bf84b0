-- ===== src/CompilerArena/Alloc.antt =====
-- src/arena.c: the operations. A block is told by how many blocks lie behind it in the list, since new
-- ones are put in front. `none` is the exit of a compiler that is out of memory.
use parena.Prelude.{
  drop, ◌^◌, ℕ, ◌+◌, ◌*◌, ◌/◌, ◌%◌, List, [], ◌∷◌, ◌++◌, Option, none, some, ltb, ◌==◌,
  if◌then◌else◌, Bytes, length,
}
use parena.CompilerArena.Contents.{splice}

pub record Block : Type 0 where
  pub used : ℕ
  pub content : Bytes

-- The blocks from `head` on.
abbrev pub Arena : Type 0
Arena = List Block

pub record Pointer : Type 0 where
  pub block : ℕ
  pub offset : ℕ

unfoldable pub arena_init : Arena
arena_init = []

-- (n + 7u) & ~7u in a 64-bit `size_t`.
unfoldable pub align_up : ℕ → ℕ
align_up n = (n + 7) % 2 ^ 64 / 8 * 8

-- ARENA_BLOCK_MIN_CAPACITY
abbrev pub min_capacity : ℕ
min_capacity = 65536

-- sizeof(ArenaBlock)
abbrev pub header_bytes : ℕ
header_bytes = 24

unfoldable pub block_capacity : ℕ → ℕ
block_capacity wanted = if ltb min_capacity wanted then wanted else min_capacity

-- The head block with `n` more bytes used, and where they start.
abbrev pub bump_head : ℕ → Block → Arena → Pointer × Arena
bump_head n b bs =
    (record { block = length bs; offset = b.used }, record b { used = (b.used + n) % 2 ^ 64 } ∷ bs)

-- A write through a pointer.
unfoldable pub store : Arena → Pointer → Bytes → Arena
store [] p text = []
store (b ∷ bs) p text =
    let more = store bs p text in
    if p.block == length bs
    then record b { content = splice b.content p.offset text } ∷ bs
    else b ∷ more

module _ {H : Type 0} (malloc : H → ℕ → Option (Bytes × H)) where
  -- The bytes behind the header are those of the block, whatever they hold.
  abbrev pub as_block : Option (Bytes × H) → Option (Block × H)
  as_block none = none
  as_block (some (bytes, h)) = some (record { used = 0; content = drop header_bytes bytes }, h)

  unfoldable pub arena_new_block : H → ℕ → Option (Block × H)
  arena_new_block h wanted = as_block (malloc h ((header_bytes + block_capacity wanted) % 2 ^ 64))

  abbrev pub in_new_block : ℕ → Arena → Option (Block × H) → Option (Pointer × (Arena × H))
  in_new_block n a none = none
  in_new_block n a (some (b, h)) = some ((bump_head n b a).0, ((bump_head n b a).1, h))

  unfoldable pub arena_alloc : Arena → H → ℕ → Option (Pointer × (Arena × H))
  arena_alloc [] h size = in_new_block (align_up size) [] (arena_new_block h (align_up size))
  arena_alloc (b ∷ bs) h size =
      let n = align_up size in
      if ltb (length b.content) ((b.used + n) % 2 ^ 64)
      then in_new_block n (b ∷ bs) (arena_new_block h n)
      else some ((bump_head n b bs).0, ((bump_head n b bs).1, h))

  -- The text and a NUL, written to the bytes that were allocated.
  abbrev pub copied : Bytes → Option (Pointer × (Arena × H)) → Option (Pointer × (Arena × H))
  copied text none = none
  copied text (some (p, (a, h))) = some (p, (store a p (text ++ (0 ∷ [])), h))

  unfoldable pub arena_strdup : Arena → H → Bytes → Option (Pointer × (Arena × H))
  arena_strdup a h text = copied text (arena_alloc a h ((length text + 1) % 2 ^ 64))

-- `free` of every block, from the head on.
unfoldable pub arena_free_all : {H : Type 0} → (H → Block → H) → Arena → H → Arena × H
arena_free_all free [] h = ([], h)
arena_free_all free (b ∷ bs) h = arena_free_all free bs (free h b)
