-- ===== src/Java/Expr.antt =====
-- src/emit_java.c: `emit_java_expr`.
use parena.Prelude.{ℕ, List, [], ◌∷◌, Option, none, some, if◌then◌else◌, Bytes, codes, strcmp_eq}
use parena.Ast.{Node, Nodes, node, nil, cons, list, symbol, number}
use parena.Emit.Out.{emitted, failed, call_text}
use parena.Lua.Names.{camel_case}
use parena.Java.Text.{
  JavaOut, unsupported_expression, find_binop, find_math_prim, symbol_text, if_text, not_text,
  binop_text, math_text,
}

-- A call of a primitive, or of another method of the class.
abbrev pub named_text : Bytes → List JavaOut → Option (Bytes × ℕ) → JavaOut
named_text h outs (some prim) = math_text prim outs
named_text h outs none = call_text (camel_case h) outs

abbrev pub operator_text : Bytes → List JavaOut → Option Bytes → JavaOut
operator_text h outs (some op) = binop_text op outs
operator_text h outs none = named_text h outs (find_math_prim h)

-- The form with head `h`, from the texts of its arguments.
unfoldable pub form_text : Bytes → List JavaOut → JavaOut
form_text h outs =
    if strcmp_eq h (codes "if")
    then if_text outs
    else if strcmp_eq h (codes "not")
    then not_text outs
    else operator_text h outs (find_binop h)

unfoldable mutual
  pub emit_java_expr : Node → JavaOut
  emit_java_expr (node number l s cs) = emitted s
  emit_java_expr (node symbol l s cs) = emitted (symbol_text s)
  emit_java_expr (node list l s (cons (node symbol m h c) args)) = form_text h (emit_java_all args)
  emit_java_expr (node t l s cs) = failed unsupported_expression

  pub emit_java_all : Nodes → List JavaOut
  emit_java_all nil = []
  emit_java_all (cons n ns) = emit_java_expr n ∷ emit_java_all ns
