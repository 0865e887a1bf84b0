-- ===== src/Lua/Text.antt =====
-- src/emit_lua.c: the texts of the forms, from the texts of their parts. The first error ends it.
use parena.Prelude.{
  ℕ, Bool, false, ◌||◌, List, [], ◌∷◌, ◌++◌, ltb, ◌==◌, if◌then◌else◌, Bytes, codes, length, c_str,
  strcmp_eq,
}
use parena.Emit.Out.{Out, emitted, failed, and_text, call_text}
use parena.Lua.Names.{lua_ident}

-- The messages of `*out_error`.
pub data LuaError : Type 0 where
  unsupported_expression if_shape not_shape let_shape let_pairs let_name unsupported_statement :
      LuaError
  no_operands unary_minus chained_comparison math_arity : LuaError
  target_odd target_missing target_shape target_map : LuaError
  defn_malformed param_shape defn_shape unsupported_form : LuaError

abbrev pub LuaOut : Type 0
LuaOut = Out LuaError

-- A symbol as an expression.
unfoldable pub symbol_text : Bytes → Bytes
symbol_text s =
    if strcmp_eq s (codes "math/pi")
    then codes "math.pi"
    else if strcmp_eq s (codes "true") || strcmp_eq s (codes "false")
    then c_str s
    else lua_ident s

-- A string as an expression, its bytes as they are.
abbrev pub string_text : Bytes → Bytes
string_text s = b'"' ∷ (c_str s ++ (b'"' ∷ []))

unfoldable pub if_text : List LuaOut → LuaOut
if_text (c ∷ t ∷ e ∷ []) = and_text c (λ x. and_text t (λ y. and_text e (λ z. emitted (
    codes "(function() if "
    ++ (x
        ++ (codes " then return "
            ++ (y ++ (codes " else return " ++ (z ++ codes " end end)()")))))))))
if_text outs = failed if_shape

unfoldable pub not_text : List LuaOut → LuaOut
not_text (o ∷ []) = and_text o (λ x. emitted (codes "(not (" ++ (x ++ codes "))")))
not_text outs = failed not_shape

abbrev pub binding_text : Bytes → LuaOut → LuaOut → LuaOut
binding_text name value rest = and_text value (λ v. and_text rest (λ r.
    emitted (codes "local " ++ (lua_ident name ++ (codes " = " ++ (v ++ (codes "; " ++ r)))))))

unfoldable pub let_text : LuaOut → LuaOut → LuaOut
let_text bindings body = and_text bindings (λ bs.
    and_text body
      (λ x. emitted (codes "(function() " ++ (bs ++ (codes "return " ++ (x ++ codes " end)()"))))))

abbrev pub has_name : List Bytes → Bytes → Bool
has_name [] h = false
has_name (w ∷ ws) h = strcmp_eq h w || has_name ws h

-- UNSUPPORTED_STATEMENT_FORMS
abbrev pub statement_forms : List Bytes
statement_forms =
    codes "do"
    ∷ codes "set!"
    ∷ codes "while"
    ∷ codes "dotimes"
    ∷ codes "loop"
    ∷ codes "recur"
    ∷ codes "def"
    ∷ codes "defstruct"
    ∷ codes "defenum"
    ∷ codes "match"
    ∷ codes "case"
    ∷ []

-- COMPARISON_OPS
abbrev pub comparison_ops : List Bytes
comparison_ops =
    codes "="
    ∷ codes "=="
    ∷ codes "!="
    ∷ codes "not="
    ∷ codes "<"
    ∷ codes "<="
    ∷ codes ">"
    ∷ codes ">="
    ∷ []

abbrev pub operation_text : Bytes → Bytes → Bytes → Bytes → Bytes
operation_text h op acc rhs =
    if strcmp_eq h (codes "/")
    then codes "__idiv(" ++ (acc ++ (codes ", " ++ (rhs ++ codes ")")))
    else codes "(" ++ (acc ++ (codes " " ++ (op ++ (codes " " ++ (rhs ++ codes ")")))))

-- The operands folded to the left.
unfoldable pub fold_text : Bytes → Bytes → Bytes → List LuaOut → LuaOut
fold_text h op acc [] = emitted acc
fold_text h op acc (o ∷ outs) =
    and_text o (λ rhs. fold_text h op (operation_text h op acc rhs) outs)

unfoldable pub binop_text : Bytes → Bytes → List LuaOut → LuaOut
binop_text h op [] = failed no_operands
binop_text h op (o ∷ []) = if strcmp_eq h (codes "-") then failed unary_minus else o
binop_text h op (o ∷ p ∷ outs) =
    if ltb 0 (length outs)
    then (if has_name comparison_ops h
        then failed chained_comparison
        else and_text o (λ acc. fold_text h op acc (p ∷ outs)))
    else and_text o (λ acc. fold_text h op acc (p ∷ outs))

abbrev pub math_text : Bytes × ℕ → List LuaOut → LuaOut
math_text (fn, n) outs = if length outs == n then call_text fn outs else failed math_arity
