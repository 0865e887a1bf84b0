-- ===== src/Lua/Names.antt =====
-- src/emit_lua.c: how names are spelled in Lua, and the tables of operators and primitives. A name is a
-- C string, so it is read up to its NUL, and `strcmp` on what is made of it compares whole lists.
use parena.Prelude.{
  ℕ, ◌-◌, Bool, true, false, ◌&&◌, ◌||◌, List, [], ◌∷◌, ◌++◌, Option, none, some, leb, ◌==◌,
  if◌then◌else◌, Bytes, codes, c_str, bytes_eq, strcmp_eq,
}

abbrev pub upper : ℕ → ℕ
upper c = if leb b'a' c && leb c b'z' then c - 32 else c

-- The loop of `camel_case`; the flag is `capitalize_next`.
unfoldable pub camel_loop : Bytes → Bool → Bytes
camel_loop [] capitalize = []
camel_loop (c ∷ cs) capitalize =
    let skipped = camel_loop cs true in
    let more = camel_loop cs false in
    if c == b'-' then skipped else (if capitalize then upper c else c) ∷ more

unfoldable pub camel_case : Bytes → Bytes
camel_case kebab = camel_loop (c_str kebab) false

-- LUA_RESERVED
abbrev pub lua_reserved : List Bytes
lua_reserved =
    codes "and"
    ∷ codes "break"
    ∷ codes "do"
    ∷ codes "else"
    ∷ codes "elseif"
    ∷ codes "end"
    ∷ codes "false"
    ∷ codes "for"
    ∷ codes "function"
    ∷ codes "goto"
    ∷ codes "if"
    ∷ codes "in"
    ∷ codes "local"
    ∷ codes "nil"
    ∷ codes "not"
    ∷ codes "or"
    ∷ codes "repeat"
    ∷ codes "return"
    ∷ codes "then"
    ∷ codes "true"
    ∷ codes "until"
    ∷ codes "while"
    ∷ codes "continue"
    ∷ codes "export"
    ∷ codes "type"
    ∷ codes "typeof"
    ∷ []

unfoldable pub is_listed : List Bytes → Bytes → Bool
is_listed [] c = false
is_listed (w ∷ ws) c = bytes_eq c w || is_listed ws c

unfoldable pub lua_ident : Bytes → Bytes
lua_ident kebab =
    if is_listed lua_reserved (camel_case kebab)
    then camel_case kebab ++ (b'_' ∷ [])
    else camel_case kebab

unfoldable pub find_entry {ℓ} : {A : Type ℓ} → List (Bytes × A) → Bytes → Option A
find_entry [] name = none
find_entry ((k, v) ∷ es) name = if strcmp_eq k name then some v else find_entry es name

-- BINOP_TABLE
abbrev pub binop_table : List (Bytes × Bytes)
binop_table =
    (codes "+", codes "+")
    ∷ (codes "-", codes "-")
    ∷ (codes "*", codes "*")
    ∷ (codes "/", codes "//")
    ∷ (codes "=", codes "==")
    ∷ (codes "<", codes "<")
    ∷ (codes ">", codes ">")
    ∷ (codes "<=", codes "<=")
    ∷ (codes ">=", codes ">=")
    ∷ (codes "and", codes "and")
    ∷ (codes "or", codes "or")
    ∷ []

abbrev pub find_binop : Bytes → Option Bytes
find_binop name = find_entry binop_table name

-- MATH_PRIM_TABLE: the function and its count of arguments.
abbrev pub math_prim_table : List (Bytes × (Bytes × ℕ))
math_prim_table =
    (codes "math/random-f64", (codes "math.random", 0))
    ∷ (codes "math/floor", (codes "math.floor", 1))
    ∷ (codes "math/sqrt", (codes "math.sqrt", 1))
    ∷ (codes "math/log", (codes "math.log", 1))
    ∷ (codes "math/cos", (codes "math.cos", 1))
    ∷ []

abbrev pub find_math_prim : Bytes → Option (Bytes × ℕ)
find_math_prim name = find_entry math_prim_table name
