-- ===== src/Runtime/Vec.antt =====
-- runtime/parena_runtime.h: `Vec`, whose array lies in an arena. A slot is its 64 bits, on a
-- little-endian host with pointers of 64 bits; the array is the list of its slots.
pub mod Contents
pub mod Operations
pub mod Tests
use parena.Prelude.{
  doubled, ℕ, zero, suc, ◌+◌, ◌-◌, ◌*◌, ◌%◌, ◌^◌, Bool, true, false, [], List, ◌++◌, Option, none,
  some, ltb, leb, ◌==◌, if◌then◌else◌, take, set, get_or, replicate, ℤ, pos, negsuc, in_range,
  at_least_zero,
}
use parena.Runtime.Arena.Provider.{Provider}
use parena.Runtime.Arena.Alloc.{Arena, Pointer, arena_alloc_aligned}

pub record Vec : Type 0 where
  pub items : List ℕ
  pub count : ℕ
  pub capacity : ℕ
  pub scalar : Bool
  pub tmp : ℕ

-- What is pushed: a pointer, or the address of the vector's own `tmp`.
pub data Item : Type 0 where
  pointer : ℕ → Item
  staged : Item

-- What `vec_get` answers: NULL, the address of a slot, or the pointer in one.
pub data Got : Type 0 where
  null : Got
  slot_address : ℕ → Got
  stored : ℕ → Got

unfoldable pub vec_new : Vec
vec_new = record { items = []; count = 0; capacity = 0; scalar = false; tmp = 0 }

-- while (new_cap < want) new_cap *= 2;
abbrev pub new_capacity : ℕ → ℕ → ℕ
new_capacity capacity want = doubled 64 (if capacity == 0 then 8 else capacity) want

-- The slots copied to a larger array, whose others hold what the arena's memory held. The array has
-- the slots of its capacity: a capacity whose bytes pass 2 ^ 64 is far beyond what an `int` counts.
abbrev pub regrown : ℕ → ℕ → Vec → Vec
regrown unset cap' v = record v {
  items = take v.count v.items ++ replicate (cap' - v.count) unset;
  capacity = cap';
}

unfoldable pub vec_is_staged : Item → Bool
vec_is_staged (pointer p) = false
vec_is_staged staged = true

abbrev pub bits : Vec → Item → ℕ
bits v (pointer p) = p
bits v staged = v.tmp

unfoldable pub vec_store : Vec → ℕ → Item → Vec
vec_store v idx item =
    if vec_is_staged item
    then record v { scalar = true; items = set v.items idx (bits v item) }
    else record v { items = set v.items idx (bits v item) }

abbrev pub got : Vec → Option ℕ → Got
got v none = null
got v (some i) = if v.scalar then slot_address i else stored (get_or v.items i 0)

unfoldable pub vec_get : Vec → ℤ → Got
vec_get v idx = got v (in_range idx v.count)

-- (int)v->count
unfoldable pub vec_len : Vec → ℕ
vec_len v = v.count

abbrev pub stored_at : Vec → Item → Option ℕ → Vec
stored_at v item none = v
stored_at v item (some i) = vec_store v i item

unfoldable pub vec_set_at : Vec → ℤ → Item → Vec
vec_set_at v idx item = stored_at v item (in_range idx v.count)

-- The 32 bits of an `int`, in a cell that has been cleared.
unfoldable pub vec_box_i32 : Vec → ℤ → Vec
vec_box_i32 v (pos n) = record v { tmp = n % 2 ^ 32 }
vec_box_i32 v (negsuc n) = record v { tmp = 2 ^ 32 - 1 - n % 2 ^ 32 }

-- The bits of a `double`.
unfoldable pub vec_box_f64 : Vec → ℕ → Vec
vec_box_f64 v value = record v { tmp = value }

unfoldable pub vec_truncate : Vec → ℤ → Vec
vec_truncate v n = if ltb (at_least_zero n) v.count then record v { count = at_least_zero n } else v

module _ (P : Provider) (unset : ℕ) where
  open P use {State}

  abbrev pub finish_reserve :
      ℕ → Vec → Option (Pointer × Arena × State) → Option (Vec × Arena × State)
  finish_reserve cap' v none = none
  finish_reserve cap' v (some (p, a, s)) = some (regrown unset cap' v, a, s)

  unfoldable pub vec_reserve_ : Vec → Arena → State → ℕ → Option (Vec × Arena × State)
  vec_reserve_ v a s want =
      let cap' = new_capacity v.capacity want in
      if ltb v.capacity want
      then finish_reserve cap' v (arena_alloc_aligned P a s (cap' * 8 % 2 ^ 64) 64)
      else some (v, a, s)

  unfoldable pub vec_reserve : Vec → Arena → State → ℤ → Option (Vec × Arena × State)
  vec_reserve v a s n =
      if ltb 0 (at_least_zero n) then vec_reserve_ v a s (at_least_zero n) else some (v, a, s)

  abbrev pub push_stored : Item → Option (Vec × Arena × State) → Option (Vec × Arena × State)
  push_stored item none = none
  push_stored item (some (v, a, s)) =
      some (record (vec_store v v.count item) { count = v.count + 1 }, a, s)

  unfoldable pub vec_push : Vec → Arena → State → Item → Option (Vec × Arena × State)
  vec_push v a s item = push_stored item (vec_reserve_ v a s (v.count + 1))
