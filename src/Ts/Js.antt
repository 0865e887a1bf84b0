-- ===== src/Ts/Js.antt =====
-- src/emit_ts.c: the forms of the bridge to JavaScript, `str` and `callback`.
use parena.Prelude.{
  ◌%◌, Bool, true, false, ◌&&◌, List, [], ◌∷◌, ◌++◌, Option, none, some, ◌==◌, if◌then◌else◌, Bytes,
  codes, c_str, length,
}
use parena.Ast.{Node, Nodes, nil, cons, string, symbol, has_type, text_of}
use parena.Emit.Out.{Out, emitted, failed, and_text, args_text}
use parena.Ts.Names.{ident, is_js_ident, is_global_path}
use parena.Ts.Literal.{ts_string_literal}
use parena.Ts.Context.{TsTypeCtx, lookup_fn_ret_type}
use parena.Ts.Text.{
  TsError, js_global_shape, js_global_name, js_get_shape, js_call_shape, js_call_fn_shape,
  js_new_shape, js_operand, js_defined_shape, js_obj_pairs, js_obj_keys, callback_shape, TsOut,
  typed, wrong, cat, and_typed, only_text, with_type, around_args,
}

pub data JsForm : Type 0 where
  js_global js_get js_aget js_call js_call_fn js_new js_null js_typeof js_defined js_obj js_array :
      JsForm
  str callback : JsForm

-- The heads that `emit_js_form` knows.
abbrev pub js_forms : List (Bytes × JsForm)
js_forms =
    (codes "js/global", js_global)
    ∷ (codes "js/get", js_get)
    ∷ (codes "js/aget", js_aget)
    ∷ (codes "js/call", js_call)
    ∷ (codes "js/call-fn", js_call_fn)
    ∷ (codes "js/new", js_new)
    ∷ (codes "js/null?", js_null)
    ∷ (codes "js/typeof", js_typeof)
    ∷ (codes "js/defined?", js_defined)
    ∷ (codes "js/obj", js_obj)
    ∷ (codes "js/array", js_array)
    ∷ (codes "str", str)
    ∷ (codes "callback", callback)
    ∷ []

abbrev pub any : Bytes
any = codes "Any"

unfoldable pub global_text : Nodes → TsOut
global_text (cons k nil) =
    if has_type k string
    then (if is_global_path (text_of k) then typed (text_of k) any else wrong js_global_name)
    else wrong js_global_shape
global_text args = wrong js_global_shape

-- A literal string that is an identifier.
abbrev pub is_member : Node → Bool
is_member k = has_type k string && is_js_ident (text_of k)

abbrev pub subscript : Bytes → Bytes → Bytes
subscript obj key = cat (obj ∷ codes "[" ∷ key ∷ codes "]" ∷ [])

abbrev pub subscript_text : TsOut → TsOut → TsOut
subscript_text o k = and_typed o (λ obj t. and_typed k (λ key u. typed (subscript obj key) any))

-- `js/get`, or `js/aget` if the flag is not set.
unfoldable pub get_text : Bool → Nodes → List TsOut → TsOut
get_text by_name (cons n (cons k nil)) (o ∷ key ∷ []) =
    if is_member k && by_name
    then and_typed o (λ obj t. typed (cat (obj ∷ codes "." ∷ text_of k ∷ [])) any)
    else subscript_text o key
get_text by_name args outs = wrong js_get_shape

unfoldable pub method_text : Nodes → List TsOut → TsOut
method_text (cons n (cons m rest)) (o ∷ name ∷ outs) =
    if is_member m
    then and_typed o (λ obj t.
      around_args (cat (obj ∷ codes "." ∷ text_of m ∷ codes "(" ∷ [])) (codes ")") any outs)
    else wrong js_call_shape
method_text args outs = wrong js_call_shape

unfoldable pub call_fn_text : List TsOut → TsOut
call_fn_text (f ∷ outs) = and_typed f (λ x t. around_args (x ++ codes "(") (codes ")") any outs)
call_fn_text outs = wrong js_call_fn_shape

unfoldable pub new_text : Nodes → List TsOut → TsOut
new_text (cons k rest) (name ∷ outs) =
    if has_type k string
    then around_args (cat (codes "new " ∷ c_str (text_of k) ∷ codes "(" ∷ [])) (codes ")") any outs
    else wrong js_new_shape
new_text args outs = wrong js_new_shape

unfoldable pub null_text : List TsOut → TsOut
null_text (o ∷ []) =
    and_typed o (λ x t. typed (cat (codes "(" ∷ x ∷ codes " == null)" ∷ [])) (codes "boolean"))
null_text outs = wrong js_operand

unfoldable pub typeof_text : List TsOut → TsOut
typeof_text (o ∷ []) =
    and_typed o (λ x t. typed (cat (codes "(typeof " ∷ x ∷ codes ")" ∷ [])) (codes "String"))
typeof_text outs = wrong js_operand

unfoldable pub defined_text : Nodes → TsOut
defined_text (cons k nil) =
    if has_type k string
    then typed (cat (codes "(typeof " ∷ c_str (text_of k) ∷ codes " !== \"undefined\")" ∷ []))
        (codes "boolean")
    else wrong js_defined_shape
defined_text args = wrong js_defined_shape

abbrev pub pair_text : Node → TsOut → Out TsError
pair_text k v =
    if has_type k string
    then and_text (only_text v)
        (λ x. emitted (cat (ts_string_literal (text_of k) ∷ codes ": " ∷ x ∷ [])))
    else failed js_obj_keys

unfoldable pub pair_texts : Nodes → List TsOut → List (Out TsError)
pair_texts (cons k (cons n rest)) (key ∷ v ∷ outs) = pair_text k v ∷ pair_texts rest outs
pair_texts args outs = []

unfoldable pub obj_text : Nodes → List TsOut → TsOut
obj_text args outs =
    if length outs % 2 == 0
    then with_type any (
        and_text (args_text (pair_texts args outs))
          (λ ps. emitted (cat (codes "{" ∷ ps ∷ codes "}" ∷ []))))
    else wrong js_obj_pairs

-- The operands of `str`, each with a plus before it.
abbrev pub sum_text : List TsOut → Out TsError
sum_text [] = emitted []
sum_text (o ∷ outs) =
    and_text (only_text o)
      (λ x. and_text (sum_text outs) (λ r. emitted (cat (codes " + " ∷ x ∷ r ∷ []))))

abbrev pub str_text : List TsOut → TsOut
str_text outs =
    with_type (codes "String")
      (and_text (sum_text outs) (λ r. emitted (cat (codes "(\"\"" ∷ r ∷ codes ")" ∷ []))))

abbrev pub known_callback : Bytes → Option Bytes → TsOut
known_callback s none = wrong callback_shape
known_callback s (some t) = typed (ident s) any

unfoldable pub callback_text : TsTypeCtx → Nodes → TsOut
callback_text ctx (cons k nil) =
    if has_type k symbol
    then known_callback (text_of k) (lookup_fn_ret_type ctx (text_of k))
    else wrong callback_shape
callback_text ctx args = wrong callback_shape

unfoldable pub emit_js_form : TsTypeCtx → JsForm → Nodes → List TsOut → TsOut
emit_js_form ctx js_global args outs = global_text args
emit_js_form ctx js_get args outs = get_text true args outs
emit_js_form ctx js_aget args outs = get_text false args outs
emit_js_form ctx js_call args outs = method_text args outs
emit_js_form ctx js_call_fn args outs = call_fn_text outs
emit_js_form ctx js_new args outs = new_text args outs
emit_js_form ctx js_null args outs = null_text outs
emit_js_form ctx js_typeof args outs = typeof_text outs
emit_js_form ctx js_defined args outs = defined_text args
emit_js_form ctx js_obj args outs = obj_text args outs
emit_js_form ctx js_array args outs = around_args (codes "[") (codes "]") any outs
emit_js_form ctx str args outs = str_text outs
emit_js_form ctx callback args outs = callback_text ctx args
