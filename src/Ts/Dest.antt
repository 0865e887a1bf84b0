-- ===== src/Ts/Dest.antt =====
-- src/emit_ts.c: where the value of a statement goes, and the lines of the statement forms.
use parena.Prelude.{
  zero, ℕ, suc, ◌+◌, ◌/◌, ◌%◌, Bool, true, false, ◌&&◌, ◌||◌, List, [], ◌∷◌, ◌++◌, Option, none,
  some, ltb, ◌==◌, if◌then◌else◌, Bytes, codes, strcmp_eq, length,
}
use parena.Ast.{Node, Nodes, node, nil, cons, list, symbol, colon, string, has_type, text_of}
use parena.Emit.Out.{Out, emitted, failed, and_text}
use parena.Lua.Names.{find_entry}
use parena.Ts.Names.{ident, type_table, ts_annot, is_js_ident}
use parena.Ts.Literal.{ts_string_literal}
use parena.Ts.Context.{TsTypeCtx, push_var, lookup_param_type}
use parena.Ts.Text.{
  TsError, unsupported_type, too_many_locals, binding_name, set_shape, set_target, js_set_shape,
  js_aset_shape, recur_position, TsOut, typed, wrong, cat, only_text,
}
use parena.Ts.Expr.{emit_ts_expr, emit_ts_all}

-- The loop of a destination has the variables of the loop and where the loop's value goes.
pub data Dest : Type 0 where
  discard return : Dest
  assign : Bytes → Dest
  in_loop : List Bytes → Dest → Dest

-- The lines of a statement and the context behind it, or an error.
pub data StmtOut : Type 0 where
  done : Bytes → TsTypeCtx → StmtOut
  stopped : TsError → StmtOut

abbrev pub and_done : StmtOut → (Bytes → TsTypeCtx → StmtOut) → StmtOut
and_done (done x ctx) f = f x ctx
and_done (stopped e) f = stopped e

abbrev pub with_value : TsOut → (Bytes → Bytes → StmtOut) → StmtOut
with_value (typed x t) f = f x t
with_value (wrong e) f = stopped e

abbrev pub indent : ℕ → Bytes
indent zero = []
indent (suc depth) = codes "    " ++ indent depth

abbrev pub line : ℕ → List Bytes → Bytes
line depth pieces = indent depth ++ (cat pieces ++ codes "\n")

abbrev pub is_return : Dest → Bool
is_return return = true
is_return d = false

abbrev pub is_value : Dest → Bool
is_value return = true
is_value (assign v) = true
is_value d = false

-- The lines that deliver a value; the flag is `ret_void`.
unfoldable pub finish_value : ℕ → Bytes → Bytes → Bool → Dest → Bytes
finish_value depth code t void discard = line depth (code ∷ codes ";" ∷ [])
finish_value depth code t void return =
    if void || strcmp_eq t (codes "Unit")
    then line depth (code ∷ codes ";" ∷ [])
    else line depth (codes "return " ∷ code ∷ codes ";" ∷ [])
finish_value depth code t void (assign v) = line depth (v ∷ codes " = " ∷ code ∷ codes ";" ∷ [])
finish_value depth code t void (in_loop vars outer) =
    finish_value depth code t void outer
    ++ (if is_return outer then [] else line depth (codes "break;" ∷ []))

-- `%d` of a number that an `int` holds, which has ten digits at most.
abbrev pub digits : ℕ → ℕ → Bytes → Bytes
digits zero n acc = acc
digits (suc k) n acc =
    let more = digits k (n / 10) ((b'0' + n % 10) ∷ acc) in
    if ltb n 10 then (b'0' + n % 10) ∷ acc else more

-- The name of a temporary.
abbrev pub fresh_tmp : ℕ → Bytes
fresh_tmp k = codes "_t" ++ digits 10 k []

-- A binding's name and its type if there is one.
pub data Binder : Type 0 where
  binder : Bytes → Option Bytes → Binder
  refused : TsError → Binder

abbrev pub declared_type : Bytes → Bytes
declared_type t = if strcmp_eq t (codes "Bool") then codes "boolean" else t

abbrev pub known_binder : Bytes → Bytes → Option Bytes → Binder
known_binder name t none = refused unsupported_type
known_binder name t (some ts) = binder name (some (declared_type t))

unfoldable pub binder_of : Node → Binder
binder_of (node symbol l s c) = binder s none
binder_of (node list l s (cons a (cons b (cons c nil)))) =
    if has_type a symbol && (has_type b colon && has_type c symbol)
    then known_binder (text_of a) (text_of c) (find_entry type_table (text_of c))
    else refused binding_name
binder_of n = refused binding_name

-- The lines of the bindings, the context with the new locals and their identifiers.
pub data BindOut : Type 0 where
  bound : Bytes → TsTypeCtx → List Bytes → BindOut
  unbound : TsError → BindOut

abbrev pub or_type : Option Bytes → Bytes → Bytes
or_type none t = t
or_type (some d) t = d

abbrev pub and_bound : BindOut → (Bytes → TsTypeCtx → List Bytes → BindOut) → BindOut
and_bound (bound x ctx ids) f = f x ctx ids
and_bound (unbound e) f = unbound e

abbrev pub with_binder : Binder → (Bytes → Option Bytes → BindOut) → BindOut
with_binder (binder name t) f = f name t
with_binder (refused e) f = unbound e

abbrev pub with_init : TsOut → (Bytes → Bytes → BindOut) → BindOut
with_init (typed x t) f = f x t
with_init (wrong e) f = unbound e

abbrev pub with_pushed : Option TsTypeCtx → (TsTypeCtx → BindOut) → BindOut
with_pushed none f = unbound too_many_locals
with_pushed (some ctx) f = f ctx

abbrev pub binding_line : ℕ → Bytes → Bytes → Bytes → Bytes
binding_line depth name t code =
    line depth
      (codes "let " ∷ ident name ∷ codes ": " ∷ ts_annot t ∷ codes " = " ∷ code ∷ codes ";" ∷ [])

-- The vector has an even count: its callers test it.
unfoldable pub emit_bindings : ℕ → TsTypeCtx → Nodes → BindOut
emit_bindings depth ctx (cons nm (cons init rest)) = with_binder (binder_of nm) (λ name declared.
    with_init (emit_ts_expr ctx init) (λ code t.
      with_pushed (push_var ctx name (or_type declared t)) (λ ctx'.
        and_bound (emit_bindings depth ctx' rest) (λ more ctx'' ids.
          bound (binding_line depth name (or_type declared t) code ++ more) ctx''
            (ident name ∷ ids)))))
emit_bindings depth ctx ns = bound [] ctx []

-- `set!`
unfoldable pub set_stmt : ℕ → TsTypeCtx → Nodes → StmtOut
set_stmt depth ctx (cons (node symbol l name c) (cons e nil)) =
    set_known (lookup_param_type ctx name)
  where
    set_known : Option Bytes → StmtOut
    set_known none = stopped set_target
    set_known (some t) =
        with_value (emit_ts_expr ctx e)
          (λ v u. done (line depth (ident name ∷ codes " = " ∷ v ∷ codes ";" ∷ [])) ctx)
set_stmt depth ctx args = stopped set_shape

abbrev pub property_place : Bytes → Bytes → Bytes
property_place o k =
    if is_js_ident k
    then cat (o ∷ codes "." ∷ k ∷ [])
    else cat (o ∷ codes "[" ∷ ts_string_literal k ∷ codes "]" ∷ [])

-- `js/set!`
unfoldable pub js_set_stmt : ℕ → TsTypeCtx → Nodes → StmtOut
js_set_stmt depth ctx (cons o (cons (node string l k c) (cons e nil))) =
    with_value (emit_ts_expr ctx o) (λ x t.
      with_value (emit_ts_expr ctx e)
        (λ v u. done (line depth (property_place x k ∷ codes " = " ∷ v ∷ codes ";" ∷ [])) ctx))
js_set_stmt depth ctx args = stopped js_set_shape

-- `js/aset!`
unfoldable pub js_aset_stmt : ℕ → TsTypeCtx → Nodes → StmtOut
js_aset_stmt depth ctx (cons o (cons i (cons e nil))) = with_value (emit_ts_expr ctx o) (λ x t.
    with_value (emit_ts_expr ctx i) (λ y u.
      with_value (emit_ts_expr ctx e)
        (λ v w. done (line depth (x ∷ codes "[" ∷ y ∷ codes "] = " ∷ v ∷ codes ";" ∷ [])) ctx)))
js_aset_stmt depth ctx args = stopped js_aset_shape

-- The new values of the loop's variables, in temporaries counted from `k`.
abbrev pub temp_lines : ℕ → ℕ → List TsOut → Out TsError
temp_lines depth k [] = emitted []
temp_lines depth k (o ∷ outs) = and_text (only_text o) (λ v.
    and_text (temp_lines depth (k + 1) outs) (λ r.
      emitted (line depth (codes "const " ∷ fresh_tmp k ∷ codes " = " ∷ v ∷ codes ";" ∷ []) ++ r)))

abbrev pub assign_lines : ℕ → ℕ → List Bytes → Bytes
assign_lines depth k [] = []
assign_lines depth k (v ∷ vars) =
    line depth (v ∷ codes " = " ∷ fresh_tmp k ∷ codes ";" ∷ []) ++ assign_lines depth (k + 1) vars

abbrev pub with_lines : Out TsError → (Bytes → StmtOut) → StmtOut
with_lines (emitted x) f = f x
with_lines (failed e) f = stopped e

abbrev pub continue_line : ℕ → Bytes
continue_line depth = line depth (codes "continue;" ∷ [])

-- The next round, whose count of arguments is that of the variables.
abbrev pub next_round : ℕ → TsTypeCtx → List Bytes → List TsOut → StmtOut
next_round depth ctx (v ∷ []) (o ∷ []) =
    with_value o
      (λ x t. done (line depth (v ∷ codes " = " ∷ x ∷ codes ";" ∷ []) ++ continue_line depth) ctx)
next_round depth ctx vars outs = with_lines (temp_lines depth ctx.tmp outs) (λ temps.
    done (temps ++ (assign_lines depth ctx.tmp vars ++ continue_line depth))
      (record ctx { tmp = ctx.tmp + length vars }))

-- `recur`
unfoldable pub recur_stmt : ℕ → TsTypeCtx → Dest → Nodes → StmtOut
recur_stmt depth ctx (in_loop vars outer) args =
    if length (emit_ts_all ctx args) == length vars
    then next_round depth ctx vars (emit_ts_all ctx args)
    else stopped recur_position
recur_stmt depth ctx d args = stopped recur_position
