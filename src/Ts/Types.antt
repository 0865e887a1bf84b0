-- ===== src/Ts/Types.antt =====
-- src/emit_ts.c: the types of the expressions, as rules on the tree.
use parena.Prelude.{
  ℕ, ◌%◌, ◌≡◌, Bool, true, false, not, ◌&&◌, List, [], ◌∷◌, Option, none, some, ◌==◌, if◌then◌else◌,
  Bytes, codes, strcmp_eq, length,
}
use parena.Ast.{Node, Nodes, node, nil, cons, list, symbol, number, string, has_type, text_of}
use parena.Lua.Names.{find_entry}
use parena.Ts.Names.{ResultKind, find_binop, find_math_prim, is_global_path}
use parena.Ts.Context.{TsTypeCtx, lookup_fn_ret_type, lookup_param_type}
use parena.Ts.Text.{TsOut, typed, wrong, number_type, constant_table, if_type, binop_type}
use parena.Ts.Js.{
  JsForm, js_global, js_get, js_aget, js_call, js_call_fn, js_new, js_null, js_typeof, js_defined,
  js_obj, js_array, str, callback, js_forms, any, is_member,
}
use parena.Ts.Expr.{is_stmt_head, callee_type}

abbrev pub given : Bool → Bytes → Option Bytes
given b t = if b then some t else none

abbrev pub is_one_path : Nodes → Bool
is_one_path (cons k nil) = has_type k string && is_global_path (text_of k)
is_one_path args = false

abbrev pub is_one_string : Nodes → Bool
is_one_string (cons k nil) = has_type k string
is_one_string args = false

abbrev pub starts_with_string : Nodes → Bool
starts_with_string (cons k rest) = has_type k string
starts_with_string args = false

abbrev pub has_method : Nodes → Bool
has_method (cons n (cons m rest)) = is_member m
has_method args = false

-- Every other node is a string.
abbrev pub has_keys : Nodes → Bool
has_keys (cons k (cons v rest)) = has_type k string && has_keys rest
has_keys args = true

-- The type of a form of the bridge, from its arguments and their types.
abbrev pub js_type : JsForm → Nodes → List Bytes → Option Bytes
js_type js_global args ts = given (is_one_path args) any
js_type js_get args ts = given (length ts == 2) any
js_type js_aget args ts = given (length ts == 2) any
js_type js_call args ts = given (has_method args) any
js_type js_call_fn args ts = given (not (length ts == 0)) any
js_type js_new args ts = given (starts_with_string args) any
js_type js_null args ts = given (length ts == 1) (codes "boolean")
js_type js_typeof args ts = given (length ts == 1) (codes "String")
js_type js_defined args ts = given (is_one_string args) (codes "boolean")
js_type js_obj args ts = given (length ts % 2 == 0 && has_keys args) any
js_type js_array args ts = some any
js_type str args ts = some (codes "String")
js_type callback args ts = none

abbrev pub conditional_type : List Bytes → Option Bytes
conditional_type (c ∷ t ∷ e ∷ []) = some (if_type t e)
conditional_type ts = none

-- One operand is for the minus alone.
abbrev pub operands_type : Bytes → ResultKind → List Bytes → Option Bytes
operands_type h kind (t ∷ []) = given (strcmp_eq h (codes "-")) t
operands_type h kind (t ∷ u ∷ []) = some (binop_type h kind t u)
operands_type h kind ts = none

abbrev pub call_type : TsTypeCtx → Bytes → List Bytes → Option (Bytes × ℕ) → Option Bytes
call_type ctx h ts (some prim) = given (length ts == prim.1) (codes "F64")
call_type ctx h ts none = some (callee_type (lookup_fn_ret_type ctx h))

abbrev pub operation_type :
    TsTypeCtx → Bytes → List Bytes → Option (Bytes × ResultKind) → Option Bytes
operation_type ctx h ts (some op) = operands_type h op.1 ts
operation_type ctx h ts none = call_type ctx h ts (find_math_prim h)

abbrev pub bridge_type : TsTypeCtx → Bytes → Nodes → List Bytes → Option JsForm → Option Bytes
bridge_type ctx h args ts (some f) = js_type f args ts
bridge_type ctx h args ts none = operation_type ctx h ts (find_binop h)

-- The type of a form with head `h`, from its arguments and their types.
unfoldable pub form_type : TsTypeCtx → Bytes → Nodes → List Bytes → Option Bytes
form_type ctx h args ts =
    if strcmp_eq h (codes "if")
    then conditional_type ts
    else if strcmp_eq h (codes "not")
    then given (length ts == 1) (codes "boolean")
    else bridge_type ctx h args ts (find_entry js_forms h)

abbrev pub is_callback_form : Option JsForm → Bool
is_callback_form (some callback) = true
is_callback_form f = false

unfoldable pub is_callback : Bytes → Bool
is_callback h =
    not (strcmp_eq h (codes "if"))
    && (not (strcmp_eq h (codes "not")) && is_callback_form (find_entry js_forms h))

-- Numbers, strings, the constants and the declared names have a type; so has `callback` with the name
-- of a function of the file, and every form that is no statement, if its arguments have types and its
-- head gives one for them.
mutual
  pub data HasType (ctx : TsTypeCtx) : Node → Bytes → Type 0 where
    a_number : (l : ℕ) (s : Bytes) (cs : Nodes) → HasType ctx (node number l s cs) (number_type s)
    a_string : (l : ℕ) (s : Bytes) (cs : Nodes) → HasType ctx (node string l s cs) (codes "String")
    a_constant :
        (l : ℕ) (s : Bytes) (cs : Nodes) {x t : Bytes}
        → find_entry constant_table s ≡ some (x, t)
        → HasType ctx (node symbol l s cs) t
    a_variable :
        (l : ℕ) (s : Bytes) (cs : Nodes) {t : Bytes}
        → find_entry constant_table s ≡ none
        → lookup_param_type ctx s ≡ some t
        → HasType ctx (node symbol l s cs) t
    a_callback :
        (l : ℕ) (s : Bytes) (m : ℕ) (h : Bytes) (c : Nodes) (name : Node) {t : Bytes}
        → is_stmt_head h ≡ false
        → is_callback h ≡ true
        → has_type name symbol ≡ true
        → lookup_fn_ret_type ctx (text_of name) ≡ some t
        → HasType ctx (node list l s (cons (node symbol m h c) (cons name nil))) any
    a_form :
        (l : ℕ) (s : Bytes) (m : ℕ) (h : Bytes) (c args : Nodes) {ts : List Bytes} {t : Bytes}
        → is_stmt_head h ≡ false
        → is_callback h ≡ false
        → HaveTypes ctx args ts
        → form_type ctx h args ts ≡ some t
        → HasType ctx (node list l s (cons (node symbol m h c) args)) t

  pub data HaveTypes (ctx : TsTypeCtx) : Nodes → List Bytes → Type 0 where
    no_more : HaveTypes ctx nil []
    one_more :
        {n : Node} {ns : Nodes} {t : Bytes} {ts : List Bytes}
        → HasType ctx n t
        → HaveTypes ctx ns ts
        → HaveTypes ctx (cons n ns) (t ∷ ts)

-- The type that comes with a text.
abbrev pub type_of : TsOut → Option Bytes
type_of (typed x t) = some t
type_of (wrong e) = none
