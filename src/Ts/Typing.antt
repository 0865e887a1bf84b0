-- ===== src/Ts/Typing.antt =====
-- src/emit_ts.c: the expressions that come out are those that have a type, and they come out with it.
use parena.Prelude.{
  ℕ, ◌%◌, ◌≡◌, inl, inr, refl, sym, ◌∙◌, true, false, ◌&&◌, List, [], ◌∷◌, ◌++◌, Option, none, some,
  ◌==◌, if◌then◌else◌, Bytes, codes, c_str, bytes_eq, strcmp_eq, Bool-cases,
}
use parena.Ast.{Nodes}
use parena.Lua.Names.{find_entry}
use parena.Sugar.Core.{bytes_eq-eq}
use parena.Ts.Names.{by_operands, ResultKind, find_binop, find_math_prim, ident}
use parena.Ts.Context.{TsTypeCtx, lookup_fn_ret_type}
use parena.Ts.Text.{binop_text, TsOut, typed, wrong, minus_text}
use parena.Ts.Js.{
  JsForm, js_global, js_get, js_aget, js_call, js_call_fn, js_new, js_null, js_typeof, js_defined,
  js_obj, js_array, str, callback, any, js_forms, emit_js_form, callback_text,
}
use parena.Ts.Expr.{
  named_text, is_stmt_head, callee_type, operator_text, bridge_text, minus_or, form_text,
  emit_ts_all,
}
use parena.Ts.Types.{
  call_type, has_keys, is_one_string, starts_with_string, has_method, is_one_path, js_type,
  operands_type, operation_type, bridge_type, form_type, is_callback_form, is_callback, type_of,
}
use parena.Ts.Shapes.{
  type_of-math_text, type_of-around_args, type_of-not_text, type_of-binop_text, type_of-if_text,
  type_of-typeof_text, type_of-null_text, types_of, from_types, from_types-counted,
}
use parena.Ts.Bridge.{
  type_of-str_text, type_of-obj_text, type_of-defined_text, type_of-new_text, type_of-call_fn_text,
  type_of-method_text, type_of-get_text, type_of-global_text, from_types-given, arg_types,
}

-- The type of a form of the bridge whose arguments are not all looked at.
abbrev js_result : TsTypeCtx → JsForm → Nodes → Option (List Bytes) → Option Bytes
js_result ctx callback args r = type_of (callback_text ctx args)
js_result ctx f args r = from_types r (js_type f args)

type_of-emit_js_form :
    (ctx : TsTypeCtx) (f : JsForm) (args : Nodes)
    → type_of (emit_js_form ctx f args (emit_ts_all ctx args))
      ≡ js_result ctx f args (arg_types ctx args)
unfolding emit_js_form
type_of-emit_js_form ctx js_global args =
    type_of-global_text ctx args ∙ from_types-given (is_one_path args) any (arg_types ctx args)
type_of-emit_js_form ctx js_get args =
    type_of-get_text ctx true args
    ∙ sym (from_types-counted (λ n. n == 2) any (emit_ts_all ctx args))
type_of-emit_js_form ctx js_aget args =
    type_of-get_text ctx false args
    ∙ sym (from_types-counted (λ n. n == 2) any (emit_ts_all ctx args))
type_of-emit_js_form ctx js_call args =
    type_of-method_text ctx args ∙ from_types-given (has_method args) any (arg_types ctx args)
type_of-emit_js_form ctx js_call_fn args = type_of-call_fn_text (emit_ts_all ctx args)
type_of-emit_js_form ctx js_new args =
    type_of-new_text ctx args ∙ from_types-given (starts_with_string args) any (arg_types ctx args)
type_of-emit_js_form ctx js_null args = type_of-null_text (emit_ts_all ctx args)
type_of-emit_js_form ctx js_typeof args = type_of-typeof_text (emit_ts_all ctx args)
type_of-emit_js_form ctx js_defined args =
    type_of-defined_text ctx args
    ∙ from_types-given (is_one_string args) (codes "boolean") (arg_types ctx args)
type_of-emit_js_form ctx js_obj args =
    type_of-obj_text ctx args
    ∙ sym (from_types-counted (λ n. n % 2 == 0 && has_keys args) any (emit_ts_all ctx args))
type_of-emit_js_form ctx js_array args =
    type_of-around_args (codes "[") (codes "]") any (emit_ts_all ctx args)
type_of-emit_js_form ctx str args = type_of-str_text (emit_ts_all ctx args)
type_of-emit_js_form ctx callback args = refl

-- The minus is no form of the bridge, but an operator.
minus_known :
    (h : Bytes)
    → strcmp_eq h (codes "-") ≡ true
    → (find_entry js_forms h ≡ none) × (find_binop h ≡ some (codes "-", by_operands))
unfolding find_entry strcmp_eq
minus_known h e =
    rw (bytes_eq-eq (c_str h) (c_str (codes "-")) e) (unfold c_str bytes_eq in (refl, refl))

operands_lem :
    (h op : Bytes) (kind : ResultKind) (outs : List TsOut)
    → type_of (minus_or h (binop_text h (op, kind) outs) outs)
      ≡ from_types (types_of outs) (operands_type h kind)
unfolding minus_or binop_text
operands_lem h op kind [] = refl
operands_lem h op kind (o ∷ []) = elim (Bool-cases (strcmp_eq h (codes "-"))) [
  | inl m ↦ rw m (minus o m)
  | inr m ↦ rw m (other o m)
]
  where
    minus :
        (p : TsOut)
        → strcmp_eq h (codes "-") ≡ true
        → type_of (minus_text p) ≡ from_types (types_of (p ∷ [])) (operands_type h kind)
    minus (typed x t) m = rw m refl
    minus (wrong e) m = refl

    other :
        (p : TsOut)
        → strcmp_eq h (codes "-") ≡ false
        → type_of (binop_text h (op, kind) (p ∷ []))
          ≡ from_types (types_of (p ∷ [])) (operands_type h kind)
    other (typed x t) m = rw m refl
    other (wrong e) m = refl
operands_lem h op kind (o ∷ p ∷ outs) = type_of-binop_text h op kind o p outs

-- Without the minus, the chain goes on.
no_minus :
    (h : Bytes) (x : TsOut) (outs : List TsOut)
    → strcmp_eq h (codes "-") ≡ false
    → minus_or h x outs ≡ x
unfolding minus_or
no_minus h x [] e = refl
no_minus h x (o ∷ []) e = rw e refl
no_minus h x (o ∷ p ∷ outs) e = refl

type_of-operator_text :
    (ctx : TsTypeCtx) (h : Bytes) (outs : List TsOut) (b : Option (Bytes × ResultKind))
    → (strcmp_eq h (codes "-") ≡ true → b ≡ some (codes "-", by_operands))
    → type_of (minus_or h (operator_text ctx h outs b) outs)
      ≡ from_types (types_of outs) (λ ts. operation_type ctx h ts b)
type_of-operator_text ctx h outs (some (op, kind)) known = operands_lem h op kind outs
type_of-operator_text ctx h outs none known = elim (Bool-cases (strcmp_eq h (codes "-"))) [
  | inl m ↦ absurd (none-some (known m))
  | inr m ↦ rw (no_minus h (operator_text ctx h outs none) outs m) (called (find_math_prim h))
]
  where
    none-some : {A : Type 0} {a : A} → none ≡ some a → ⊥
    none-some e = cc

    called :
        (p : Option (Bytes × ℕ))
        → type_of (named_text ctx h outs p)
          ≡ from_types (types_of outs) (λ ts. call_type ctx h ts p)
    called (some (fn, n)) = type_of-math_text fn n outs
    called none =
        type_of-around_args (ident h ++ codes "(") (codes ")")
          (callee_type (lookup_fn_ret_type ctx h)) outs

-- What `bridge_text` gives, with its callback.
abbrev bridge_result :
    TsTypeCtx → Bytes → Nodes → Option JsForm → Option (List Bytes) → Option Bytes
bridge_result ctx h args f r =
    if is_callback_form f
    then type_of (callback_text ctx args)
    else from_types r (λ ts. bridge_type ctx h args ts f)

type_of-bridge_text :
    (ctx : TsTypeCtx) (h : Bytes) (args : Nodes) (f : Option JsForm)
    → (strcmp_eq h (codes "-") ≡ true → f ≡ none)
    → type_of (minus_or h (bridge_text ctx h args (emit_ts_all ctx args) f) (emit_ts_all ctx args))
      ≡ bridge_result ctx h args f (arg_types ctx args)
type_of-bridge_text ctx h args none known =
    type_of-operator_text ctx h (emit_ts_all ctx args) (find_binop h) (λ e. (minus_known h e).1)
type_of-bridge_text ctx h args (some f) known = elim (Bool-cases (strcmp_eq h (codes "-"))) [
  | inl m ↦ absurd (some-none (known m))
  | inr m ↦
      rw (no_minus h (emit_js_form ctx f args (emit_ts_all ctx args)) (emit_ts_all ctx args) m)
        (type_of-emit_js_form ctx f args ∙ result f)
]
  where
    some-none : {A : Type 0} {a : A} → some a ≡ none → ⊥
    some-none e = cc

    result :
        (g : JsForm)
        → js_result ctx g args (arg_types ctx args)
          ≡ bridge_result ctx h args (some g) (arg_types ctx args)
    result js_global = refl
    result js_get = refl
    result js_aget = refl
    result js_call = refl
    result js_call_fn = refl
    result js_new = refl
    result js_null = refl
    result js_typeof = refl
    result js_defined = refl
    result js_obj = refl
    result js_array = refl
    result str = refl
    result callback = refl

-- The type of a form's text, from the types of its arguments' texts.
abbrev pub form_result : TsTypeCtx → Bytes → Nodes → Option (List Bytes) → Option Bytes
form_result ctx h args r =
    if is_stmt_head h
    then none
    else if is_callback h
    then type_of (callback_text ctx args)
    else from_types r (λ ts. form_type ctx h args ts)

pub type_of-form_text :
    (ctx : TsTypeCtx) (h : Bytes) (args : Nodes)
    → type_of (form_text ctx h args (emit_ts_all ctx args))
      ≡ form_result ctx h args (arg_types ctx args)
unfolding form_text is_callback form_type
type_of-form_text ctx h args = elim (Bool-cases (is_stmt_head h)) [
  | inl s ↦ rw s refl
  | inr s ↦ elim (Bool-cases (strcmp_eq h (codes "if"))) [
    | inl i ↦ rw (s, i) (type_of-if_text (emit_ts_all ctx args))
    | inr i ↦ elim (Bool-cases (strcmp_eq h (codes "not"))) [
      | inl n ↦ rw (s, i, n) (type_of-not_text (emit_ts_all ctx args))
      | inr n ↦
          rw (s, i, n)
            (type_of-bridge_text ctx h args (find_entry js_forms h) (λ e. (minus_known h e).0))
    ]
  ]
]
