-- ===== src/Ts/Leaves.antt =====
-- src/emit_ts.c: the statements without a body, and the bindings.
use parena.Prelude.{
  set, take-set, sym, ℕ, ◌+◌, ◌≤◌, inl, inr, refl, List, [], ◌∷◌, ◌++◌, Option, arith, leb, ◌==◌,
  if_cases, Bytes, codes, strcmp_eq, length, Bool-cases, Option-cases,
}
use parena.Ast.{Node, Nodes, node, nil, cons, symbol, number, string}
use parena.Emit.Out.{Out, emitted, failed}
use parena.Ts.Context.{lookup_param_type, TsTypeCtx, ts_max_vars, push_var}
use parena.Ts.Expr.{emit_ts_expr, emit_ts_all}
use parena.Ts.Text.{TsError, TsOut, typed, wrong}
use parena.Ts.Names.{ident}
use parena.Ts.Dest.{
  assign_lines, continue_line, temp_lines, or_type, binding_line, binding_line, temp_lines, or_type,
  Dest, discard, in_loop, done, with_value, BindOut, bound, unbound, Binder, binder, refused,
  binder_of, with_binder, with_init, with_pushed, and_bound, emit_bindings, with_lines, set_stmt,
  js_set_stmt, js_aset_stmt, recur_stmt, next_round,
}
use parena.Ts.Stmt.{value_stmt}
use parena.Ts.Same.{
  Restores, Grows, Grows-trans, grows, Extends, same, with_value-Restores, restored, no_lines,
  extended, no_locals,
}

-- The text of a value is all that comes of it.
valued :
    {ctx : TsTypeCtx} (o : TsOut) (f : Bytes → Bytes → Bytes)
    → Restores ctx (with_value o (λ x t. done (f x t) ctx))
valued {ctx} o f = with_value-Restores o (λ x t. done (f x t) ctx) (λ x t. restored (same ctx))

pub value-Restores :
    (depth : ℕ) (d : Dest) (ctx : TsTypeCtx) (n : Node) → Restores ctx (value_stmt depth d ctx n)
unfolding value_stmt
value-Restores depth d ctx (node symbol l s c) =
    if_cases (Restores ctx) (strcmp_eq s (codes "unit")) (λ e. restored (same ctx))
      (λ e. valued (emit_ts_expr ctx (node symbol l s c)) _)
value-Restores depth discard ctx (node number l s c) = restored (same ctx)
value-Restores depth d ctx n = valued (emit_ts_expr ctx n) _

pub set-Restores :
    (depth : ℕ) (ctx : TsTypeCtx) (args : Nodes) → Restores ctx (set_stmt depth ctx args)
unfolding set_stmt
set-Restores depth ctx (cons (node symbol l name c) (cons e nil)) =
    elim (Option-cases (lookup_param_type ctx name)) [
      | inl k ↦ rw k no_lines
      | inr (t, k) ↦ rw k (valued (emit_ts_expr ctx e) _)
    ]
set-Restores depth ctx args = no_lines

pub js_set-Restores :
    (depth : ℕ) (ctx : TsTypeCtx) (args : Nodes) → Restores ctx (js_set_stmt depth ctx args)
unfolding js_set_stmt
js_set-Restores depth ctx (cons o (cons (node string l k c) (cons e nil))) =
    with_value-Restores (emit_ts_expr ctx o) _ (λ x t. valued (emit_ts_expr ctx e) _)
js_set-Restores depth ctx args = no_lines

pub js_aset-Restores :
    (depth : ℕ) (ctx : TsTypeCtx) (args : Nodes) → Restores ctx (js_aset_stmt depth ctx args)
unfolding js_aset_stmt
js_aset-Restores depth ctx (cons o (cons i (cons e nil))) =
    with_value-Restores (emit_ts_expr ctx o) _
      (λ x t. with_value-Restores (emit_ts_expr ctx i) _ (λ y u. valued (emit_ts_expr ctx e) _))
js_aset-Restores depth ctx args = no_lines

temps-Restores :
    {ctx : TsTypeCtx} (k : ℕ) (o : Out TsError) (f : Bytes → Bytes)
    → Restores ctx (with_lines o (λ t. done (f t) (record ctx { tmp = k })))
temps-Restores k (emitted t) f = restored (record {
  file = record { fns = refl; globals = refl; ret_void = refl };
  counts = refl;
  locals = refl;
})
temps-Restores k (failed e) f = no_lines

all_temps :
    (depth : ℕ) (ctx : TsTypeCtx) (vars : List Bytes) (outs : List TsOut)
    → Restores ctx (
        with_lines (temp_lines depth ctx.tmp outs) (λ temps.
          done
            (temps ++ (assign_lines depth ctx.tmp vars ++ continue_line depth))
            (record ctx { tmp = ctx.tmp + length vars })))
all_temps depth ctx vars outs =
    temps-Restores (ctx.tmp + length vars) (temp_lines depth ctx.tmp outs)
      (λ temps. temps ++ (assign_lines depth ctx.tmp vars ++ continue_line depth))

round-Restores :
    (depth : ℕ) (ctx : TsTypeCtx) (vars : List Bytes) (outs : List TsOut)
    → Restores ctx (next_round depth ctx vars outs)
round-Restores depth ctx (v ∷ []) (o ∷ []) = valued o _
round-Restores depth ctx [] outs = all_temps depth ctx [] outs
round-Restores depth ctx (v ∷ []) [] = all_temps depth ctx (v ∷ []) []
round-Restores depth ctx (v ∷ []) (o ∷ p ∷ outs) = all_temps depth ctx (v ∷ []) (o ∷ p ∷ outs)
round-Restores depth ctx (v ∷ w ∷ vars) outs = all_temps depth ctx (v ∷ w ∷ vars) outs

pub recur-Restores :
    (depth : ℕ) (ctx : TsTypeCtx) (d : Dest) (args : Nodes)
    → Restores ctx (recur_stmt depth ctx d args)
unfolding recur_stmt
recur-Restores depth ctx (in_loop vars outer) args =
    if_cases (Restores ctx) (length (emit_ts_all ctx args) == length vars)
      (λ e. round-Restores depth ctx vars (emit_ts_all ctx args)) (λ e. no_lines)
recur-Restores depth ctx d args = no_lines

module _ {ctx : TsTypeCtx} where
  with_binder-Extends :
      (b : Binder) (f : Bytes → Option Bytes → BindOut)
      → ((name : Bytes) (t : Option Bytes) → Extends ctx (f name t))
      → Extends ctx (with_binder b f)
  with_binder-Extends (binder name t) f h = h name t
  with_binder-Extends (refused e) f h = no_locals

  with_init-Extends :
      (o : TsOut) (f : Bytes → Bytes → BindOut)
      → ((x t : Bytes) → Extends ctx (f x t))
      → Extends ctx (with_init o f)
  with_init-Extends (typed x t) f h = h x t
  with_init-Extends (wrong e) f h = no_locals

  pushed-Grows :
      (name t : Bytes)
      → Grows ctx (record ctx {
        params = set ctx.params ctx.param_count (name, t);
        param_count = ctx.param_count + 1;
      })
  pushed-Grows name t = record {
    file = record { fns = refl; globals = refl; ret_void = refl };
    more = omega arith;
    locals = sym (take-set ctx.param_count ctx.params (name, t));
  }

  -- A local that is pushed has room in the array.
  pushed-Extends :
      (name t line : Bytes) (f : TsTypeCtx → BindOut)
      → ((c : TsTypeCtx) → Extends c (f c))
      → Extends ctx (
          with_pushed
            (push_var ctx name t)
            (λ c. and_bound (f c) (λ more c' ids. bound (line ++ more) c' (ident name ∷ ids))))
  unfolding push_var
  pushed-Extends name t line f h = elim (Bool-cases (leb ts_max_vars ctx.param_count)) [
    | inl full ↦ rw full no_locals
    | inr room ↦ rw room (more (ground arith) (f pushed) (h pushed))
  ]
    where
      pushed : TsTypeCtx
      pushed = record ctx {
        params = set ctx.params ctx.param_count (name, t);
        param_count = ctx.param_count + 1;
      }

      more :
          ctx.param_count + 1 ≤ ts_max_vars
          → (b : BindOut) → Extends pushed b
          → Extends ctx (and_bound b (λ more c' ids. bound (line ++ more) c' (ident name ∷ ids)))
      more r (bound x c' ids) (extended p fits n) =
          extended (Grows-trans (pushed-Grows name t) p) (λ h. fits r) (omega (arith, n))
      more r (unbound e) no_locals = no_locals

pub emit_bindings-Extends :
    (depth : ℕ) (ctx : TsTypeCtx) (bs : Nodes) → Extends ctx (emit_bindings depth ctx bs)
unfolding emit_bindings
emit_bindings-Extends depth ctx nil = extended (grows ctx) (λ h. h) (omega arith)
emit_bindings-Extends depth ctx (cons nm nil) = extended (grows ctx) (λ h. h) (omega arith)
emit_bindings-Extends depth ctx (cons nm (cons init rest)) =
    with_binder-Extends (binder_of nm) _ (λ name declared.
      with_init-Extends (emit_ts_expr ctx init) _ (λ code t.
        pushed-Extends name (or_type declared t) (binding_line depth name (or_type declared t) code)
          (λ c. emit_bindings depth c rest) (λ c. emit_bindings-Extends depth c rest)))
