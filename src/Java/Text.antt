-- ===== src/Java/Text.antt =====
-- src/emit_java.c: the tables of types, operators and primitives, and the texts of the forms from the
-- texts of their parts. Its `camel_case` is that of src/emit_lua.c.
use parena.Prelude.{
  ℕ, List, [], ◌∷◌, ◌++◌, Option, none, some, ◌==◌, if◌then◌else◌, Bytes, codes, length, strcmp_eq,
}
use parena.Ast.{Node, node, symbol}
use parena.Emit.Out.{Out, emitted, failed, and_text, call_text}
use parena.Lua.Names.{camel_case, find_entry}

-- The messages of `*out_error`.
pub data JavaError : Type 0 where
  expected_type unsupported_type unsupported_expression if_shape not_shape : JavaError
  two_operands math_arity target_odd target_missing target_shape target_map : JavaError
  defn_malformed param_shape defn_shape unsupported_form : JavaError

abbrev pub JavaOut : Type 0
JavaOut = Out JavaError

abbrev pub type_table : List (Bytes × Bytes)
type_table =
    (codes "I32", codes "int")
    ∷ (codes "F64", codes "double")
    ∷ (codes "Bool", codes "boolean")
    ∷ (codes "String", codes "String")
    ∷ (codes "Unit", codes "void")
    ∷ []

abbrev pub known_type : Option Bytes → JavaOut
known_type none = failed unsupported_type
known_type (some t) = emitted t

unfoldable pub resolve_java_type : Node → JavaOut
resolve_java_type (node symbol l s c) = known_type (find_entry type_table s)
resolve_java_type n = failed expected_type

-- MATH_PRIM_TABLE: the method and its count of arguments.
abbrev pub math_prim_table : List (Bytes × (Bytes × ℕ))
math_prim_table =
    (codes "math/random-f64", (codes "Math.random", 0))
    ∷ (codes "math/floor", (codes "Math.floor", 1))
    ∷ (codes "math/sqrt", (codes "Math.sqrt", 1))
    ∷ (codes "math/log", (codes "Math.log", 1))
    ∷ (codes "math/cos", (codes "Math.cos", 1))
    ∷ []

abbrev pub find_math_prim : Bytes → Option (Bytes × ℕ)
find_math_prim name = find_entry math_prim_table name

-- BINOP_TABLE
abbrev pub binop_table : List (Bytes × Bytes)
binop_table =
    (codes "+", codes "+")
    ∷ (codes "-", codes "-")
    ∷ (codes "*", codes "*")
    ∷ (codes "/", codes "/")
    ∷ (codes "=", codes "==")
    ∷ (codes "<", codes "<")
    ∷ (codes ">", codes ">")
    ∷ (codes "<=", codes "<=")
    ∷ (codes ">=", codes ">=")
    ∷ (codes "and", codes "&&")
    ∷ (codes "or", codes "||")
    ∷ []

abbrev pub find_binop : Bytes → Option Bytes
find_binop name = find_entry binop_table name

-- A symbol as an expression.
unfoldable pub symbol_text : Bytes → Bytes
symbol_text s = if strcmp_eq s (codes "math/pi") then codes "Math.PI" else camel_case s

unfoldable pub if_text : List JavaOut → JavaOut
if_text (c ∷ t ∷ e ∷ []) = and_text c (λ x. and_text t (λ y.
    and_text e (λ z.
      emitted (codes "(" ++ (x ++ (codes " ? " ++ (y ++ (codes " : " ++ (z ++ codes ")")))))))))
if_text outs = failed if_shape

unfoldable pub not_text : List JavaOut → JavaOut
not_text (o ∷ []) = and_text o (λ x. emitted (codes "(!(" ++ (x ++ codes "))")))
not_text outs = failed not_shape

unfoldable pub binop_text : Bytes → List JavaOut → JavaOut
binop_text op (o ∷ p ∷ []) = and_text o (λ x.
    and_text p
      (λ y. emitted (codes "(" ++ (x ++ (codes " " ++ (op ++ (codes " " ++ (y ++ codes ")"))))))))
binop_text op outs = failed two_operands

abbrev pub math_text : Bytes × ℕ → List JavaOut → JavaOut
math_text (fn, n) outs = if length outs == n then call_text fn outs else failed math_arity
