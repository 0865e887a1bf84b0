-- ===== src/Runtime/Buffers.antt =====
-- runtime/parena_runtime.h: `Bytes`, a length and a buffer in an arena. The buffer is the list of its
-- bytes; a write hands back the buffer it leaves, which the copies of the struct share.
pub mod Contents
pub mod Tests
use parena.Prelude.{
  ℕ, zero, suc, ◌+◌, ◌-◌, ◌%◌, Bool, true, false, List, [], ◌∷◌, ◌++◌, Option, none, some, ltb,
  ◌==◌, if◌then◌else◌, length, take, drop, set, get_or, replicate, ℤ, pos, negsuc, in_range, to_int,
  leb, at_least_zero, c_str,
}
use parena.Runtime.Arena.Provider.{Provider}
use parena.Runtime.Arena.Alloc.{Arena, Pointer, arena_alloc}

pub record Buffer : Type 0 where
  pub bytes : List ℕ
  pub len : ℕ

unfoldable pub bytes_len : Buffer → ℕ
bytes_len b = b.len

abbrev pub byte_or_minus_one : List ℕ → Option ℕ → ℤ
byte_or_minus_one bytes none = negsuc 0
byte_or_minus_one bytes (some i) = pos (get_or bytes i 0)

unfoldable pub bytes_get : Buffer → ℤ → ℤ
bytes_get b idx = byte_or_minus_one b.bytes (in_range idx b.len)

-- (unsigned char)value
unfoldable pub to_byte : ℤ → ℕ
to_byte (pos n) = n % 256
to_byte (negsuc n) = 255 - n % 256

abbrev pub byte_set : Buffer → ℕ → Option ℕ → Buffer
byte_set b x none = b
byte_set b x (some i) = record b { bytes = set b.bytes i x }

unfoldable pub bytes_set : Buffer → ℤ → ℤ → Buffer
bytes_set b idx value = byte_set b (to_byte value) (in_range idx b.len)

abbrev pub at_most : ℕ → ℕ → ℕ
at_most n len = if ltb len n then len else n

-- The bytes from `start` to `end'`, both moved into the buffer.
abbrev pub slice_data : Buffer → ℤ → ℤ → List ℕ
slice_data b start end' =
    let from = at_least_zero start in
    take (at_most (at_least_zero end') b.len - from) (drop from b.bytes)

-- A copy of text into a new buffer: the arena has no room, the text does not fit into the buffer and
-- is written past it, or the buffer holds it.
pub data Filled (State : Type 0) : Type 0 where
  exhausted overrun : Filled State
  filled : Buffer → Arena → State → Filled State

-- `memcpy` to the start of the buffer.
abbrev pub copied : {State : Type 0} → List ℕ → Option (Buffer × Arena × State) → Filled State
copied text none = exhausted
copied text (some (b, a, s)) =
    if leb (length text) (length b.bytes)
    then filled (record b { bytes = text ++ drop (length text) b.bytes }) a s
    else overrun

module _ (P : Provider) (unset : ℕ) where
  open P use {State}

  -- A buffer of `len` bytes whose first are `bytes`.
  abbrev pub with_data :
      List ℕ → ℕ → Option (Pointer × Arena × State) → Option (Buffer × Arena × State)
  with_data bytes len none = none
  with_data bytes len (some (p, a, s)) = some (
    record {
      bytes = bytes ++ replicate ((if len == 0 then 1 else len) - length bytes) unset;
      len = len;
    },
    a,
    s,
  )

  unfoldable pub bytes_alloc : Arena → State → ℤ → Option (Buffer × Arena × State)
  bytes_alloc a s n =
      let len = at_least_zero n in
      with_data [] len (arena_alloc P a s (if len == 0 then 1 else len))

  unfoldable pub bytes_from_string : Arena → State → List ℕ → Filled State
  bytes_from_string a s str = copied (c_str str) (bytes_alloc a s (to_int (length (c_str str))))

  -- The string with the NUL behind it.
  abbrev pub terminated :
      List ℕ → Option (Pointer × Arena × State) → Option (List ℕ × Arena × State)
  terminated out none = none
  terminated out (some (p, a, s)) = some (out ++ (0 ∷ []), a, s)

  unfoldable pub bytes_to_string_lossy : Buffer → Arena → State → Option (List ℕ × Arena × State)
  bytes_to_string_lossy b a s =
      let out = c_str (take b.len b.bytes) in terminated out (arena_alloc P a s (length out + 1))

  unfoldable pub bytes_slice : Buffer → Arena → State → ℤ → ℤ → Option (Buffer × Arena × State)
  bytes_slice b a s start end' =
      let out = slice_data b start end' in
      with_data out (length out) (arena_alloc P a s (if length out == 0 then 1 else length out))
