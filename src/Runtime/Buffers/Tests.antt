-- ===== src/Runtime/Buffers/Tests.antt =====
-- Runs on buffers, over a static pool of four blocks.
use parena.Prelude.{
  ℕ, ◌≡◌, ◌≢◌, ◌∷◌, ◌++◌, refl, true, false, [], some, arith, pos, ℤ, c_str, List, length, to_int,
  at_least_zero,
}
use parena.Runtime.Pool.{Pool, scan, set_range, blocks_for, take_run, static_alloc}
use parena.Runtime.Arena.Provider.{pool_provider}
use parena.Runtime.Arena.Alloc.{align_up, block_capacity, arena_new_block, arena_alloc}
use parena.Runtime.Buffers.{
  filled, bytes_alloc, Buffer, bytes_get, to_byte, bytes_set, bytes_from_string,
  bytes_to_string_lossy,
}
use parena.Runtime.Buffers.Contents.{ComesBack, bytes_get-set, bytes_to_string-from_string}

abbrev three : Buffer
three = record { bytes = 1 ∷ 0 ∷ 3 ∷ []; len = 3 }

bytes_get-set_example :
    (bytes_get (bytes_set three (pos 1) (pos 300)) (pos 1) ≡ pos (to_byte (pos 300)))
    × ((j : ℤ) → j ≢ pos 1 → bytes_get (bytes_set three (pos 1) (pos 300)) j ≡ bytes_get three j)
bytes_get-set_example = bytes_get-set three 1 (pos 300) (omega arith) (omega arith)

abbrev four_free : Pool
four_free = record {
  used = false ∷ false ∷ false ∷ false ∷ [];
  run = 0 ∷ 0 ∷ 0 ∷ 0 ∷ [];
  in_use = 0;
  high = 0;
}

abbrev four_less_one : Pool
four_less_one = record {
  used = true ∷ false ∷ false ∷ false ∷ [];
  run = 1 ∷ 0 ∷ 0 ∷ 0 ∷ [];
  in_use = 8192;
  high = 8192;
}

-- The text "hi", with a NUL and a byte behind it.
abbrev text : List ℕ
text = 104 ∷ 105 ∷ 0 ∷ 33 ∷ []

text_copied :
    bytes_from_string pool_provider 0 [] four_free text
    ≡ filled
        (record { bytes = 104 ∷ 105 ∷ []; len = 2 })
        (record { address = 0; used = 8; capacity = 8128 } ∷ [])
        four_less_one
unfolding bytes_from_string bytes_alloc to_int at_least_zero c_str arena_alloc arena_new_block
    align_up block_capacity static_alloc scan blocks_for take_run set_range
text_copied = refl

copied_back :
    bytes_to_string_lossy pool_provider 0
      (record { bytes = 104 ∷ 105 ∷ []; len = 2 })
      (record { address = 0; used = 8; capacity = 8128 } ∷ [])
      four_less_one
    ≡ some
        (104 ∷ 105 ∷ 0 ∷ [], record { address = 0; used = 16; capacity = 8128 } ∷ [], four_less_one)
unfolding bytes_to_string_lossy c_str arena_alloc align_up
copied_back = refl

text_length : length (c_str text) ≡ 2
unfolding c_str
text_length = refl

bytes_to_string-from_string_example :
    ComesBack pool_provider 0
      (c_str text ++ (0 ∷ []))
      []
      four_free
      (bytes_from_string pool_provider 0 [] four_free text)
bytes_to_string-from_string_example =
    bytes_to_string-from_string pool_provider 0 [] [] four_free four_free text
      (omega (arith, text_length))
