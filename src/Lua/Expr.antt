-- ===== src/Lua/Expr.antt =====
-- src/emit_lua.c: `emit_lua_expr`.
use parena.Prelude.{
  ℕ, ◌%◌, List, [], ◌∷◌, ◌++◌, Option, none, some, ◌==◌, if◌then◌else◌, Bytes, codes, strcmp_eq,
}
use parena.Ast.{
  Node, Nodes, node, nil, cons, list, vec, symbol, number, string, has_type, text_of, count,
}
use parena.Emit.Out.{emitted, failed, call_text}
use parena.Lua.Names.{find_binop, find_math_prim, lua_ident}
use parena.Lua.Text.{
  LuaOut, unsupported_expression, let_shape, let_pairs, let_name, unsupported_statement,
  symbol_text, string_text, if_text, not_text, binding_text, let_text, has_name, statement_forms,
  binop_text, math_text,
}

-- A call of a primitive, or of another function of the module.
abbrev pub named_text : Bytes → List LuaOut → Option (Bytes × ℕ) → LuaOut
named_text h outs (some prim) = math_text prim outs
named_text h outs none = call_text (codes "M." ++ lua_ident h) outs

abbrev pub operator_text : Bytes → List LuaOut → Option Bytes → LuaOut
operator_text h outs (some op) = binop_text h op outs
operator_text h outs none = named_text h outs (find_math_prim h)

-- The form with head `h`, from the texts of its arguments and its text as a `let`.
unfoldable pub form_text : Bytes → List LuaOut → LuaOut → LuaOut
form_text h outs as_let =
    if strcmp_eq h (codes "if")
    then if_text outs
    else if strcmp_eq h (codes "not")
    then not_text outs
    else if strcmp_eq h (codes "let")
    then as_let
    else if has_name statement_forms h
    then failed unsupported_statement
    else operator_text h outs (find_binop h)

unfoldable mutual
  pub emit_lua_expr : Node → LuaOut
  emit_lua_expr (node number l s cs) = emitted s
  emit_lua_expr (node string l s cs) = emitted (string_text s)
  emit_lua_expr (node symbol l s cs) = emitted (symbol_text s)
  emit_lua_expr (node list l s (cons (node symbol m h c) args)) =
      form_text h (emit_lua_all args) (emit_lua_let args)
  emit_lua_expr (node t l s cs) = failed unsupported_expression

  pub emit_lua_all : Nodes → List LuaOut
  emit_lua_all nil = []
  emit_lua_all (cons n ns) = emit_lua_expr n ∷ emit_lua_all ns

  pub emit_lua_let : Nodes → LuaOut
  emit_lua_let (cons (node vec l s bs) (cons body nil)) =
      let bindings = emit_lua_bindings bs in
      let result = emit_lua_expr body in
      if count bs % 2 == 0 then let_text bindings result else failed let_pairs
  emit_lua_let args = failed let_shape

  pub emit_lua_bindings : Nodes → LuaOut
  emit_lua_bindings nil = emitted []
  emit_lua_bindings (cons n nil) = emitted []
  emit_lua_bindings (cons n (cons e rest)) =
      let value = emit_lua_expr e in
      let more = emit_lua_bindings rest in
      if has_type n symbol then binding_text (text_of n) value more else failed let_name
