-- ===== src/Prelude/Int.antt =====
-- C's `int` as an index: the integers, over the native numbers.
use Prim.Native.Nat.{ℕ, ◌-◌, ◌%◌, ◌^◌}
use mathlib.Core.Option.{Option, none, some}
use parena.Prelude.Tests.{ltb, if◌then◌else◌}

pub data ℤ : Type 0 where
  pos : ℕ → ℤ
  negsuc : ℕ → ℤ

-- `(int)n` of a `size_t`: the low 32 bits, in two's complement.
unfoldable pub to_int : ℕ → ℤ
to_int n = if ltb (n % 2 ^ 32) (2 ^ 31) then pos (n % 2 ^ 32) else negsuc (2 ^ 32 - 1 - n % 2 ^ 32)

-- An index that is not negative and below a length.
unfoldable pub in_range : ℤ → ℕ → Option ℕ
in_range (pos n) len = if ltb n len then some n else none
in_range (negsuc n) len = none

-- A negative number is taken for 0.
unfoldable pub at_least_zero : ℤ → ℕ
at_least_zero (pos n) = n
at_least_zero (negsuc n) = 0
