-- ===== src/Ts/Module.antt =====
-- src/emit_ts.c: `emit_ts_defn` and `emit_ts`. The sugar's count starts at 0, and `cond` is rewritten,
-- as no other emitter runs in the process.
use parena.Prelude.{
  ℕ, Bool, false, ◌&&◌, ◌||◌, List, [], ◌∷◌, ◌++◌, Option, none, some, if◌then◌else◌, Bytes, codes,
  strcmp_eq,
}
use parena.Ast.{
  Node, Nodes, node, nil, cons, list, vec, symbol, colon, has_type, text_of, children_of,
}
use parena.Emit.Out.{Out, emitted, failed, and_text}
use parena.Emit.Forms.{is_call_named, is_metadata}
use parena.Lua.Names.{find_entry}
use parena.Sugar.{and_then, sugar_children}
use parena.Ts.Names.{ident, type_table, ts_annot}
use parena.Ts.Context.{Entries, no_locals_yet, TsTypeCtx, push_var}
use parena.Ts.Text.{
  TsError, expected_type, unsupported_type, too_many_locals, defn_malformed, param_shape,
  defn_shape, def_shape, start_shape, unsupported_form, sugar_error, TsOut, typed, wrong, cat,
}
use parena.Ts.Expr.{emit_ts_expr}
use parena.Ts.Dest.{return, StmtOut, done, stopped, declared_type}
use parena.Ts.Stmt.{ts_seq}

-- The parameters' texts and the context that has them.
pub data ParamOut : Type 0 where
  listed : List Bytes → TsTypeCtx → ParamOut
  unlisted : TsError → ParamOut

abbrev pub with_param : Option TsTypeCtx → (TsTypeCtx → ParamOut) → ParamOut
with_param none f = unlisted too_many_locals
with_param (some ctx) f = f ctx

abbrev pub with_param_type : Option Bytes → (Bytes → ParamOut) → ParamOut
with_param_type none f = unlisted unsupported_type
with_param_type (some t) f = f t

abbrev pub with_params : ParamOut → (List Bytes → TsTypeCtx → ParamOut) → ParamOut
with_params (listed ps ctx) f = f ps ctx
with_params (unlisted e) f = unlisted e

abbrev pub is_param : Node → Node → Node → Bool
is_param a b c = has_type a symbol && (has_type b colon && has_type c symbol)

-- The loop over the parameters, each `(name : Type)`.
unfoldable pub emit_params : TsTypeCtx → Nodes → ParamOut
emit_params ctx nil = listed [] ctx
emit_params ctx (cons (node list l s (cons a (cons b (cons c nil)))) rest) =
    if is_param a b c
    then with_param_type (find_entry type_table (text_of c)) (λ t.
      with_param (push_var ctx (text_of a) (declared_type (text_of c))) (λ ctx'.
        with_params (emit_params ctx' rest)
          (λ ps ctx''. listed (cat (ident (text_of a) ∷ codes ": " ∷ t ∷ []) ∷ ps) ctx'')))
    else unlisted param_shape
emit_params ctx (cons n rest) = unlisted param_shape

abbrev pub comma_joined : List Bytes → Bytes
comma_joined [] = []
comma_joined (p ∷ []) = p
comma_joined (p ∷ q ∷ ps) = p ++ (codes ", " ++ comma_joined (q ∷ ps))

abbrev pub ts_known_type : Option Bytes → Out TsError
ts_known_type none = failed unsupported_type
ts_known_type (some t) = emitted t

unfoldable pub resolve_ts_type : Node → Out TsError
resolve_ts_type (node symbol l s c) = ts_known_type (find_entry type_table s)
resolve_ts_type n = failed expected_type

abbrev pub lines_of : StmtOut → Out TsError
lines_of (done x ctx) = emitted x
lines_of (stopped e) = failed e

abbrev pub ts_function : Bytes → List Bytes → Bytes → Bytes → Bytes
ts_function name params ret body = cat (
    codes "export function "
    ∷ name
    ∷ codes "("
    ∷ comma_joined params
    ∷ codes "): "
    ∷ ret
    ∷ codes " {\n"
    ∷ body
    ∷ codes "}\n\n"
    ∷ [])

-- What follows the parameters: the colon, the return type and the body.
unfoldable pub emit_ts_body : TsTypeCtx → Bytes → List Bytes → Nodes → Out TsError
emit_ts_body ctx name params (cons c (cons t (cons b body))) =
    if has_type c colon
    then and_text (resolve_ts_type t) (λ ret.
      and_text
        (lines_of (
          ts_seq 1 return (record ctx { ret_void = strcmp_eq ret (codes "void"); tmp = 0 })
            (cons b body)))
        (λ x. emitted (ts_function name params ret x)))
    else failed defn_shape
emit_ts_body ctx name params rest = failed defn_shape

abbrev pub with_listed : ParamOut → (List Bytes → TsTypeCtx → Out TsError) → Out TsError
with_listed (listed ps ctx) f = f ps ctx
with_listed (unlisted e) f = failed e

-- A definition, from its children: the head, the name, the parameters and the rest.
unfoldable pub emit_ts_defn : TsTypeCtx → Nodes → Out TsError
emit_ts_defn ctx (cons d (cons (node symbol l name c) (cons (node vec vl vs params) rest))) =
    with_listed (emit_params (record ctx { param_count = 0 }) params)
      (λ ps ctx'. emit_ts_body ctx' (ident name) ps rest)
emit_ts_defn ctx cs = failed defn_malformed

-- The rewrite of a definition's children from the fifth on.
unfoldable pub sugar_defn : Nodes → ℕ → Option (Nodes × ℕ)
sugar_defn (cons a (cons b (cons c (cons d rest)))) k =
    and_then (sugar_children false rest k)
      (λ ds k'. some (cons a (cons b (cons c (cons d ds))), k'))
sugar_defn cs k = some (cs, k)

abbrev pub sugar_form : Node → ℕ → Option (Node × ℕ)
sugar_form (node t l s cs) k =
    if is_call_named (node t l s cs) (codes "defn")
    then and_then (sugar_defn cs k) (λ ds k'. some (node t l s ds, k'))
    else some (node t l s cs, k)

unfoldable pub sugar_program : Nodes → ℕ → Option (Nodes × ℕ)
sugar_program nil k = some (nil, k)
sugar_program (cons n ns) k =
    and_then (sugar_form n k)
      (λ m k'. and_then (sugar_program ns k') (λ ms k''. some (cons m ms, k'')))

-- The signature of a well-formed definition.
unfoldable pub signature : Nodes → Entries
signature (cons d (cons name (cons ps (cons c (cons t (cons b body)))))) =
    if has_type name symbol && (has_type c colon && has_type t symbol)
    then (text_of name, declared_type (text_of t)) ∷ []
    else []
signature cs = []

-- Pass 1
unfoldable pub signatures : Nodes → Entries
signatures nil = []
signatures (cons form forms) =
    let more = signatures forms in
    if is_call_named form (codes "defn") then signature (children_of form) ++ more else more

-- The module's variables, in their order.
pub data DefOut : Type 0 where
  defined : Bytes → TsTypeCtx → DefOut
  undefined : TsError → DefOut

abbrev pub and_defined : DefOut → (Bytes → TsTypeCtx → DefOut) → DefOut
and_defined (defined x ctx) f = f x ctx
and_defined (undefined e) f = undefined e

abbrev pub with_def : TsOut → (Bytes → Bytes → DefOut) → DefOut
with_def (typed x t) f = f x t
with_def (wrong e) f = undefined e

unfoldable pub emit_def : TsTypeCtx → Nodes → DefOut
emit_def ctx (cons d (cons (node symbol l name c) (cons init nil))) =
    with_def (emit_ts_expr ctx init) (λ x t.
      defined
        (cat (
          codes "let " ∷ ident name ∷ codes ": " ∷ ts_annot t ∷ codes " = " ∷ x ∷ codes ";\n" ∷ []))
        (record ctx { globals = ctx.globals ++ ((name, t) ∷ []) }))
emit_def ctx cs = undefined def_shape

unfoldable pub emit_defs : TsTypeCtx → Nodes → DefOut
emit_defs ctx nil = defined [] ctx
emit_defs ctx (cons form forms) =
    let skipped = emit_defs ctx forms in
    let both =
      and_defined (emit_def ctx (children_of form))
        (λ x ctx'. and_defined (emit_defs ctx' forms) (λ y ctx''. defined (x ++ y) ctx'')) in
    if is_call_named form (codes "def") then both else skipped

abbrev pub is_passed_over : Node → Bool
is_passed_over form =
    is_metadata form || (is_call_named form (codes "def") || is_call_named form (codes "start"))

unfoldable pub emit_functions : TsTypeCtx → Nodes → Out TsError
emit_functions ctx nil = emitted []
emit_functions ctx (cons form forms) =
    let rest = emit_functions ctx forms in
    if is_passed_over form
    then rest
    else if is_call_named form (codes "defn")
    then and_text (emit_ts_defn ctx (children_of form)) (λ x. and_text rest (λ y. emitted (x ++ y)))
    else failed unsupported_form

abbrev pub expression_line : TsOut → Out TsError
expression_line (typed x t) = emitted (x ++ codes ";\n")
expression_line (wrong e) = failed e

unfoldable pub emit_start : TsTypeCtx → Nodes → Out TsError
emit_start ctx (cons s (cons e nil)) =
    expression_line (emit_ts_expr (record ctx { param_count = 0 }) e)
emit_start ctx cs = failed start_shape

unfoldable pub emit_starts : TsTypeCtx → Nodes → Out TsError
emit_starts ctx nil = emitted []
emit_starts ctx (cons form forms) =
    let rest = emit_starts ctx forms in
    if is_call_named form (codes "start")
    then and_text (emit_start ctx (children_of form)) (λ x. and_text rest (λ y. emitted (x ++ y)))
    else rest

abbrev pub ts_header : Bytes
ts_header =
    codes
      "// Generated by parena build (TypeScript target) -- VS0-for-TS v0, do not edit by hand.\n\n"

-- An empty line behind the variables, if there are any.
abbrev pub gap : Entries → Bytes
gap [] = []
gap (g ∷ gs) = codes "\n"

-- Pass 2, behind the variables.
abbrev pub emit_rest : Nodes → DefOut → Out TsError
emit_rest forms (undefined e) = failed e
emit_rest forms (defined x ctx) = and_text (emit_functions ctx forms) (λ fs.
    and_text (emit_starts ctx forms)
      (λ ss. emitted (ts_header ++ (x ++ (gap ctx.globals ++ (fs ++ ss))))))

abbrev pub emit_sugared : Option (Nodes × ℕ) → Out TsError
emit_sugared none = failed sugar_error
emit_sugared (some (forms, k)) = emit_rest forms (
    emit_defs
      (record {
        fns = signatures forms;
        params = no_locals_yet;
        param_count = 0;
        globals = [];
        tmp = 0;
        ret_void = false;
      })
      forms)

unfoldable pub emit_ts : Node → Out TsError
emit_ts program = emit_sugared (sugar_program (children_of program) 0)
