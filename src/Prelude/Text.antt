-- ===== src/Prelude/Text.antt =====
-- Text as the C code holds it: a sequence of bytes, compared up to the first NUL by `strcmp`.
use Prim.Native.Char.{code}
use Prim.Native.Nat.{ℕ}
use Prim.Native.String.{String}
use mathlib.Core.Bool.{Bool, true, false, ◌&&◌}
use mathlib.Core.List.{List, [], ◌∷◌}
use parena.Prelude.Tests.{◌==◌, if◌then◌else◌}

abbrev pub Bytes : Type 0
Bytes = List ℕ

-- The code points of a literal: its bytes, since every literal of the program is ASCII.
abbrev pub codes : String → Bytes
codes String.[] = []
codes (String.◌∷◌ c s) = code c ∷ codes s

-- The C string that starts at a buffer: what stands before the first NUL.
unfoldable pub c_str : Bytes → Bytes
c_str [] = []
c_str (c ∷ cs) = if c == 0 then [] else c ∷ c_str cs

unfoldable pub bytes_eq : Bytes → Bytes → Bool
bytes_eq [] [] = true
bytes_eq (a ∷ as') (b ∷ bs) = a == b && bytes_eq as' bs
bytes_eq _ _ = false

-- `strcmp(a, b) == 0`
unfoldable pub strcmp_eq : Bytes → Bytes → Bool
unfolding c_str bytes_eq
strcmp_eq a b = bytes_eq (c_str a) (c_str b)
