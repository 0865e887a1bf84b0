-- ===== src/Ts/Names.antt =====
-- src/emit_ts.c: how names are spelled in TypeScript, its types, and the tables of operators and
-- primitives.
use parena.Prelude.{
  ℕ, Bool, true, false, ◌&&◌, ◌||◌, List, [], ◌∷◌, ◌++◌, Option, leb, ◌==◌, if◌then◌else◌, Bytes,
  codes, c_str, strcmp_eq,
}
use parena.Lua.Names.{upper, is_listed, find_entry}

-- The loop of `camel_case`; the flag is `capitalize_next`, which `!` and `?` leave as it is.
unfoldable pub camel_loop : Bytes → Bool → Bytes
camel_loop [] capitalize = []
camel_loop (c ∷ cs) capitalize =
    let skipped = camel_loop cs true in
    let same = camel_loop cs capitalize in
    let more = camel_loop cs false in
    if c == b'-'
    then skipped
    else if c == b'!'
    then codes "Bang" ++ same
    else if c == b'?'
    then b'P' ∷ same
    else (if capitalize then upper c else c) ∷ more

unfoldable pub camel_case : Bytes → Bytes
camel_case kebab = camel_loop (c_str kebab) false

-- TS_RESERVED
abbrev pub ts_reserved : List Bytes
ts_reserved =
    codes "break"
    ∷ codes "case"
    ∷ codes "catch"
    ∷ codes "class"
    ∷ codes "const"
    ∷ codes "continue"
    ∷ codes "debugger"
    ∷ codes "default"
    ∷ codes "delete"
    ∷ codes "do"
    ∷ codes "else"
    ∷ codes "enum"
    ∷ codes "export"
    ∷ codes "extends"
    ∷ codes "false"
    ∷ codes "finally"
    ∷ codes "for"
    ∷ codes "function"
    ∷ codes "if"
    ∷ codes "import"
    ∷ codes "in"
    ∷ codes "instanceof"
    ∷ codes "let"
    ∷ codes "new"
    ∷ codes "null"
    ∷ codes "return"
    ∷ codes "super"
    ∷ codes "switch"
    ∷ codes "this"
    ∷ codes "throw"
    ∷ codes "true"
    ∷ codes "try"
    ∷ codes "typeof"
    ∷ codes "var"
    ∷ codes "void"
    ∷ codes "while"
    ∷ codes "with"
    ∷ codes "yield"
    ∷ codes "await"
    ∷ codes "async"
    ∷ codes "static"
    ∷ codes "interface"
    ∷ codes "type"
    ∷ codes "namespace"
    ∷ codes "undefined"
    ∷ codes "arguments"
    ∷ codes "eval"
    ∷ codes "of"
    ∷ codes "package"
    ∷ codes "private"
    ∷ codes "protected"
    ∷ codes "public"
    ∷ codes "implements"
    ∷ []

unfoldable pub ident : Bytes → Bytes
ident kebab =
    if is_listed ts_reserved (camel_case kebab)
    then camel_case kebab ++ (b'_' ∷ [])
    else camel_case kebab

-- The table of `resolve_ts_type`.
abbrev pub type_table : List (Bytes × Bytes)
type_table =
    (codes "I32", codes "number")
    ∷ (codes "F64", codes "number")
    ∷ (codes "Bool", codes "boolean")
    ∷ (codes "String", codes "string")
    ∷ (codes "Unit", codes "void")
    ∷ (codes "Any", codes "any")
    ∷ []

-- MATH_PRIM_TABLE: the function and its count of arguments.
abbrev pub math_prim_table : List (Bytes × (Bytes × ℕ))
math_prim_table =
    (codes "math/random-f64", (codes "Math.random", 0))
    ∷ (codes "math/floor", (codes "Math.floor", 1))
    ∷ (codes "math/sqrt", (codes "Math.sqrt", 1))
    ∷ (codes "math/log", (codes "Math.log", 1))
    ∷ (codes "math/cos", (codes "Math.cos", 1))
    ∷ (codes "math/sin", (codes "Math.sin", 1))
    ∷ (codes "math/abs", (codes "Math.abs", 1))
    ∷ (codes "math/min", (codes "Math.min", 2))
    ∷ (codes "math/max", (codes "Math.max", 2))
    ∷ (codes "math/round", (codes "Math.round", 1))
    ∷ []

abbrev pub find_math_prim : Bytes → Option (Bytes × ℕ)
find_math_prim name = find_entry math_prim_table name

-- What `bool_result` and `int_result` of a BinopEntry say.
pub data ResultKind : Type 0 where
  by_operands boolean_result int_result : ResultKind

-- BINOP_TABLE
abbrev pub binop_table : List (Bytes × (Bytes × ResultKind))
binop_table =
    (codes "+", (codes "+", by_operands))
    ∷ (codes "-", (codes "-", by_operands))
    ∷ (codes "*", (codes "*", by_operands))
    ∷ (codes "/", (codes "/", by_operands))
    ∷ (codes "=", (codes "===", boolean_result))
    ∷ (codes "!=", (codes "!==", boolean_result))
    ∷ (codes "<", (codes "<", boolean_result))
    ∷ (codes ">", (codes ">", boolean_result))
    ∷ (codes "<=", (codes "<=", boolean_result))
    ∷ (codes ">=", (codes ">=", boolean_result))
    ∷ (codes "and", (codes "&&", boolean_result))
    ∷ (codes "or", (codes "||", boolean_result))
    ∷ (codes "mod", (codes "%", by_operands))
    ∷ (codes "bit-and", (codes "&", int_result))
    ∷ (codes "bit-or", (codes "|", int_result))
    ∷ (codes "bit-xor", (codes "^", int_result))
    ∷ (codes "shl", (codes "<<", int_result))
    ∷ (codes "shr", (codes ">>", int_result))
    ∷ (codes "ushr", (codes ">>>", int_result))
    ∷ []

abbrev pub find_binop : Bytes → Option (Bytes × ResultKind)
find_binop name = find_entry binop_table name

abbrev pub ts_annot : Bytes → Bytes
ts_annot type_name =
    if strcmp_eq type_name (codes "I32") || strcmp_eq type_name (codes "F64")
    then codes "number"
    else if strcmp_eq type_name (codes "boolean")
    then codes "boolean"
    else if strcmp_eq type_name (codes "String")
    then codes "string"
    else if strcmp_eq type_name (codes "Unit")
    then codes "void"
    else codes "any"

abbrev pub is_letter : ℕ → Bool
is_letter c = (leb b'a' c && leb c b'z') || ((leb b'A' c && leb c b'Z') || (c == b'_' || c == b'$'))

abbrev pub is_digit : ℕ → Bool
is_digit c = leb b'0' c && leb c b'9'

-- The characters of an identifier behind the first.
abbrev pub all_ident : Bytes → Bool
all_ident [] = true
all_ident (c ∷ cs) = (is_letter c || is_digit c) && all_ident cs

unfoldable pub is_js_ident : Bytes → Bool
is_js_ident [] = false
is_js_ident (c ∷ cs) = is_letter c && all_ident cs

-- The characters of the name in `js/global`.
abbrev pub is_global_path : Bytes → Bool
is_global_path [] = true
is_global_path (c ∷ cs) = (is_letter c || (is_digit c || c == b'.')) && is_global_path cs
