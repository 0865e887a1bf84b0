-- ===== src/Runtime/Vec/Tests.antt =====
-- Runs on vectors, over a static pool of four blocks.
use parena.Prelude.{doubled, ◌≡◌, refl, true, false, [], ◌∷◌, some, arith, pos, take, at_least_zero}
use parena.Runtime.Pool.{Pool, scan, set_range, blocks_for, take_run, static_alloc}
use parena.Runtime.Arena.Provider.{pool_provider}
use parena.Runtime.Arena.Alloc.{
  align_up, block_capacity, arena_new_block, arena_alloc, arena_alloc_aligned,
}
use parena.Runtime.Vec.{
  Vec, pointer, staged, vec_is_staged, vec_store, vec_get, vec_set_at, vec_truncate, vec_reserve_,
  vec_push,
}
use parena.Runtime.Vec.Contents.{IsVec, Pushed}
use parena.Runtime.Vec.Operations.{
  Holds, looked_up, at_index, written, vec_push-Pushed, vec_get-at_index, vec_set_at-Holds,
  vec_truncate-Holds,
}

abbrev four_free : Pool
four_free = record {
  used = false ∷ false ∷ false ∷ false ∷ [];
  run = 0 ∷ 0 ∷ 0 ∷ 0 ∷ [];
  in_use = 0;
  high = 0;
}

abbrev four_less_one : Pool
four_less_one = record {
  used = true ∷ false ∷ false ∷ false ∷ [];
  run = 1 ∷ 0 ∷ 0 ∷ 0 ∷ [];
  in_use = 8192;
  high = 8192;
}

abbrev no_items : Vec
no_items = record { items = []; count = 0; capacity = 0; scalar = false; tmp = 0 }

abbrev one_item : Vec
one_item = record {
  items = 7 ∷ 0 ∷ 0 ∷ 0 ∷ 0 ∷ 0 ∷ 0 ∷ 0 ∷ [];
  count = 1;
  capacity = 8;
  scalar = false;
  tmp = 0;
}

first_push :
    vec_push pool_provider 0 no_items [] four_free (pointer 7)
    ≡ some (one_item, record { address = 0; used = 64; capacity = 8128 } ∷ [], four_less_one)
unfolding vec_push vec_reserve_ vec_store vec_is_staged doubled arena_alloc arena_alloc_aligned
    arena_new_block align_up block_capacity static_alloc scan blocks_for take_run set_range
first_push = refl

no_items-IsVec : IsVec no_items
no_items-IsVec = record { fits = omega arith; slots = refl }

vec_push-Pushed_example : Pushed no_items (pointer 7) one_item
vec_push-Pushed_example =
    vec_push-Pushed pool_provider 0 no_items [] four_free (pointer 7) no_items-IsVec (omega arith)
      first_push

-- Two items in an array of four slots.
abbrev two_items : Vec
two_items = record { items = 7 ∷ 9 ∷ 0 ∷ 0 ∷ []; count = 2; capacity = 4; scalar = false; tmp = 5 }

two_items-IsVec : IsVec two_items
two_items-IsVec = record { fits = omega arith; slots = refl }

vec_get-at_index_example :
    vec_get two_items (pos 1) ≡ looked_up false (pos 1) (at_index (7 ∷ 9 ∷ []) (pos 1))
vec_get-at_index_example = vec_get-at_index two_items (pos 1) two_items-IsVec

vec_set_at-Holds_example :
    Holds (vec_set_at two_items (pos 1) staged) (written (7 ∷ 9 ∷ []) (pos 1) 5)
vec_set_at-Holds_example = vec_set_at-Holds two_items (pos 1) staged two_items-IsVec

vec_truncate-Holds_example :
    Holds (vec_truncate two_items (pos 1)) (take (at_least_zero (pos 1)) (7 ∷ 9 ∷ []))
vec_truncate-Holds_example = vec_truncate-Holds two_items (pos 1) two_items-IsVec
