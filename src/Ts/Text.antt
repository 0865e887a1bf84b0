-- ===== src/Ts/Text.antt =====
-- src/emit_ts.c: the texts and types of the forms, from those of their arguments.
use parena.Prelude.{
  map, ℕ, Bool, false, ◌&&◌, ◌||◌, List, [], ◌∷◌, ◌++◌, Option, none, some, ◌==◌, if◌then◌else◌,
  Bytes, codes, strcmp_eq, length,
}
use parena.Emit.Out.{Out, emitted, failed, and_text, args_text}
use parena.Ts.Names.{ident, ResultKind, by_operands, boolean_result, int_result}

-- The messages of `*out_error`.
pub data TsError : Type 0 where
  expected_type unsupported_type too_many_locals : TsError
  js_global_shape js_global_name js_get_shape js_call_shape js_call_fn_shape : TsError
  js_new_shape js_operand js_defined_shape js_obj_pairs js_obj_keys callback_shape : TsError
  unsupported_expression if_shape not_shape two_operands math_arity : TsError
  undeclared statement_form : Bytes → TsError
  binding_name let_shape when_shape set_shape set_target js_set_shape js_aset_shape : TsError
  loop_shape recur_position defn_malformed param_shape defn_shape def_shape start_shape : TsError
  unsupported_form sugar_error : TsError

-- The text of an expression and its type, or NULL with an error.
pub data TsOut : Type 0 where
  typed : Bytes → Bytes → TsOut
  wrong : TsError → TsOut

abbrev pub and_typed : TsOut → (Bytes → Bytes → TsOut) → TsOut
and_typed (typed x t) f = f x t
and_typed (wrong e) f = wrong e

abbrev pub only_text : TsOut → Out TsError
only_text (typed x t) = emitted x
only_text (wrong e) = failed e

abbrev pub with_type : Bytes → Out TsError → TsOut
with_type t (emitted x) = typed x t
with_type t (failed e) = wrong e

abbrev pub cat : List Bytes → Bytes
cat [] = []
cat (p ∷ []) = p
cat (p ∷ q ∷ ps) = p ++ cat (q ∷ ps)

-- emit_args
abbrev pub emit_args : List TsOut → Out TsError
emit_args outs = args_text (map only_text outs)

-- The arguments between two texts, as a value of the type.
abbrev pub around_args : Bytes → Bytes → Bytes → List TsOut → TsOut
around_args before after t outs =
    with_type t (and_text (emit_args outs) (λ a. emitted (before ++ (a ++ after))))

abbrev pub call_text : Bytes → Bytes → List TsOut → TsOut
call_text fn t outs = around_args (fn ++ codes "(") (codes ")") t outs

-- The type of a number is told by a point in its text.
abbrev pub has_point : Bytes → Bool
has_point [] = false
has_point (c ∷ cs) = c == b'.' || has_point cs

abbrev pub number_type : Bytes → Bytes
number_type s = if has_point s then codes "F64" else codes "I32"

-- What a symbol means apart from the declared names.
abbrev pub constant_table : List (Bytes × (Bytes × Bytes))
constant_table =
    (codes "math/pi", (codes "Math.PI", codes "F64"))
    ∷ (codes "true", (codes "true", codes "boolean"))
    ∷ (codes "false", (codes "false", codes "boolean"))
    ∷ (codes "null", (codes "null", codes "Any"))
    ∷ (codes "undefined", (codes "undefined", codes "Unit"))
    ∷ (codes "unit", (codes "undefined", codes "Unit"))
    ∷ []

abbrev pub declared_text : Bytes → Option Bytes → TsOut
declared_text s none = wrong (undeclared s)
declared_text s (some t) = typed (ident s) t

abbrev pub constant_or_declared : Bytes → Option Bytes → Option (Bytes × Bytes) → TsOut
constant_or_declared s declared none = declared_text s declared
constant_or_declared s declared (some (x, t)) = typed x t

abbrev pub if_type : Bytes → Bytes → Bytes
if_type t e = if strcmp_eq t (codes "Unit") then e else t

unfoldable pub if_text : List TsOut → TsOut
if_text (c ∷ t ∷ e ∷ []) = and_typed c (λ x tx. and_typed t (λ y ty. and_typed e (λ z tz.
    typed (cat (codes "(" ∷ x ∷ codes " ? " ∷ y ∷ codes " : " ∷ z ∷ codes ")" ∷ []))
      (if_type ty tz))))
if_text outs = wrong if_shape

unfoldable pub not_text : List TsOut → TsOut
not_text (o ∷ []) =
    and_typed o (λ x t. typed (cat (codes "(!(" ∷ x ∷ codes "))" ∷ [])) (codes "boolean"))
not_text outs = wrong not_shape

abbrev pub minus_text : TsOut → TsOut
minus_text o = and_typed o (λ x t. typed (cat (codes "(-" ∷ x ∷ codes ")" ∷ [])) t)

abbrev pub both_i32 : Bytes → Bytes → Bool
both_i32 t u = strcmp_eq t (codes "I32") && strcmp_eq u (codes "I32")

abbrev pub either_is : Bytes → Bytes → Bytes → Bool
either_is name t u = strcmp_eq t name || strcmp_eq u name

-- The type of an operation that is no truncated division.
abbrev pub kind_type : Bytes → ResultKind → Bytes → Bytes → Bytes
kind_type h boolean_result t u = codes "boolean"
kind_type h int_result t u = codes "I32"
kind_type h by_operands t u =
    if either_is (codes "String") t u && strcmp_eq h (codes "+")
    then codes "String"
    else if either_is (codes "Any") t u
    then codes "Any"
    else if both_i32 t u
    then codes "I32"
    else codes "F64"

abbrev pub binop_type : Bytes → ResultKind → Bytes → Bytes → Bytes
binop_type h kind t u =
    if strcmp_eq h (codes "/") && both_i32 t u
    then codes "I32"
    else if strcmp_eq h (codes "mod")
    then (if both_i32 t u then codes "I32" else codes "F64")
    else kind_type h kind t u

abbrev pub binop_code : Bytes → Bytes → Bytes → Bytes → Bytes → Bytes → Bytes
binop_code h op x t y u =
    if strcmp_eq h (codes "/") && both_i32 t u
    then cat (codes "Math.trunc(" ∷ x ∷ codes " / " ∷ y ∷ codes ")" ∷ [])
    else if strcmp_eq h (codes "mod")
    then cat (codes "(" ∷ x ∷ codes " % " ∷ y ∷ codes ")" ∷ [])
    else cat (codes "(" ∷ x ∷ codes " " ∷ op ∷ codes " " ∷ y ∷ codes ")" ∷ [])

unfoldable pub binop_text : Bytes → Bytes × ResultKind → List TsOut → TsOut
binop_text h (op, kind) (o ∷ p ∷ []) =
    and_typed o
      (λ x t. and_typed p (λ y u. typed (binop_code h op x t y u) (binop_type h kind t u)))
binop_text h op outs = wrong two_operands

abbrev pub math_text : Bytes × ℕ → List TsOut → TsOut
math_text (fn, n) outs =
    if length outs == n then call_text fn (codes "F64") outs else wrong math_arity
