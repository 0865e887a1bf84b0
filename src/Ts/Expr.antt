-- ===== src/Ts/Expr.antt =====
-- src/emit_ts.c: `emit_ts_expr`. It reads the context and does not change it.
use parena.Prelude.{
  ℕ, Bool, List, [], ◌∷◌, Option, none, some, if◌then◌else◌, Bytes, codes, strcmp_eq,
}
use parena.Ast.{Node, Nodes, node, nil, cons, list, symbol, number, string}
use parena.Lua.Names.{find_entry}
use parena.Lua.Text.{has_name}
use parena.Ts.Names.{ResultKind, find_binop, find_math_prim, ident}
use parena.Ts.Context.{TsTypeCtx, lookup_fn_ret_type, lookup_param_type}
use parena.Ts.Names.{ResultKind}
use parena.Ts.Literal.{ts_string_literal}
use parena.Ts.Text.{
  unsupported_expression, statement_form, TsOut, typed, wrong, if_text, not_text, minus_text,
  binop_text, math_text, call_text, number_type, constant_table, constant_or_declared,
}
use parena.Ts.Js.{JsForm, js_forms, emit_js_form}

-- The heads of the statement forms.
abbrev pub stmt_heads : List Bytes
stmt_heads =
    codes "let"
    ∷ codes "do"
    ∷ codes "when"
    ∷ codes "loop"
    ∷ codes "recur"
    ∷ codes "set!"
    ∷ codes "js/set!"
    ∷ codes "js/aset!"
    ∷ []

abbrev pub is_stmt_head : Bytes → Bool
is_stmt_head h = has_name stmt_heads h

-- The type of a call; a function of another file is taken to return I32.
abbrev pub callee_type : Option Bytes → Bytes
callee_type none = codes "I32"
callee_type (some t) = t

abbrev pub named_text : TsTypeCtx → Bytes → List TsOut → Option (Bytes × ℕ) → TsOut
named_text ctx h outs (some prim) = math_text prim outs
named_text ctx h outs none = call_text (ident h) (callee_type (lookup_fn_ret_type ctx h)) outs

abbrev pub operator_text : TsTypeCtx → Bytes → List TsOut → Option (Bytes × ResultKind) → TsOut
operator_text ctx h outs (some op) = binop_text h op outs
operator_text ctx h outs none = named_text ctx h outs (find_math_prim h)

abbrev pub bridge_text : TsTypeCtx → Bytes → Nodes → List TsOut → Option JsForm → TsOut
bridge_text ctx h args outs (some f) = emit_js_form ctx f args outs
bridge_text ctx h args outs none = operator_text ctx h outs (find_binop h)

-- A minus before one operand, else what comes behind it in the chain.
unfoldable pub minus_or : Bytes → TsOut → List TsOut → TsOut
minus_or h other (o ∷ []) = if strcmp_eq h (codes "-") then minus_text o else other
minus_or h other outs = other

-- The form with head `h`, from its arguments and their texts.
unfoldable pub form_text : TsTypeCtx → Bytes → Nodes → List TsOut → TsOut
form_text ctx h args outs =
    if is_stmt_head h
    then wrong (statement_form h)
    else if strcmp_eq h (codes "if")
    then if_text outs
    else if strcmp_eq h (codes "not")
    then not_text outs
    else minus_or h (bridge_text ctx h args outs (find_entry js_forms h)) outs

unfoldable mutual
  pub emit_ts_expr : TsTypeCtx → Node → TsOut
  emit_ts_expr ctx (node number l s cs) = typed s (number_type s)
  emit_ts_expr ctx (node string l s cs) = typed (ts_string_literal s) (codes "String")
  emit_ts_expr ctx (node symbol l s cs) =
      constant_or_declared s (lookup_param_type ctx s) (find_entry constant_table s)
  emit_ts_expr ctx (node list l s (cons (node symbol m h c) args)) =
      form_text ctx h args (emit_ts_all ctx args)
  emit_ts_expr ctx (node t l s cs) = wrong unsupported_expression

  pub emit_ts_all : TsTypeCtx → Nodes → List TsOut
  emit_ts_all ctx nil = []
  emit_ts_all ctx (cons n ns) = emit_ts_expr ctx n ∷ emit_ts_all ctx ns
