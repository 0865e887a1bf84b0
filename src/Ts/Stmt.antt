-- ===== src/Ts/Stmt.antt =====
-- src/emit_ts.c: `ts_stmt` and `ts_seq`. What the source appends to its buffer is the text here.
use parena.Prelude.{
  take, ℕ, suc, ◌%◌, Bool, false, not, ◌&&◌, ◌||◌, List, [], ◌∷◌, ◌++◌, ◌==◌, if◌then◌else◌, Bytes,
  codes, strcmp_eq,
}
use parena.Ast.{Node, Nodes, node, nil, cons, list, vec, symbol, number, has_type, text_of, count}
use parena.Ts.Context.{TsTypeCtx}
use parena.Ts.Text.{let_shape, when_shape, loop_shape}
use parena.Ts.Expr.{is_stmt_head, emit_ts_expr}
use parena.Ts.Dest.{
  Dest, discard, in_loop, StmtOut, done, stopped, and_done, with_value, line, is_value,
  finish_value, BindOut, bound, unbound, emit_bindings, set_stmt, js_set_stmt, js_aset_stmt,
  recur_stmt,
}

abbrev pub starts_stmt : Nodes → Bool
starts_stmt nil = false
starts_stmt (cons n ns) = has_type n symbol && is_stmt_head (text_of n)

-- A statement form somewhere in the lists of the tree.
unfoldable mutual
  pub needs_stmt : Node → Bool
  needs_stmt (node list l s cs) = starts_stmt cs || any_needs cs
  needs_stmt n = false

  pub any_needs : Nodes → Bool
  any_needs nil = false
  any_needs (cons n ns) = needs_stmt n || any_needs ns

abbrev pub with_bound : BindOut → (Bytes → TsTypeCtx → List Bytes → StmtOut) → StmtOut
with_bound (bound x ctx ids) f = f x ctx ids
with_bound (unbound e) f = stopped e

-- The count of locals is set back behind a block.
abbrev pub block : ℕ → TsTypeCtx → Bytes → StmtOut → StmtOut
block depth saved bindings body = and_done body (λ x ctx.
    done (line depth (codes "{" ∷ []) ++ (bindings ++ (x ++ line depth (codes "}" ∷ []))))
      (record ctx { param_count = saved.param_count }))

-- A value where a statement stands.
unfoldable pub value_stmt : ℕ → Dest → TsTypeCtx → Node → StmtOut
value_stmt depth d ctx (node symbol l s c) =
    if strcmp_eq s (codes "unit")
    then done [] ctx
    else with_value (emit_ts_expr ctx (node symbol l s c))
        (λ x t. done (finish_value depth x t ctx.ret_void d) ctx)
value_stmt depth discard ctx (node number l s c) = done [] ctx
value_stmt depth d ctx n =
    with_value (emit_ts_expr ctx n) (λ x t. done (finish_value depth x t ctx.ret_void d) ctx)

abbrev pub loop_or_discard : Dest → Dest
loop_or_discard (in_loop vars outer) = in_loop vars outer
loop_or_discard d = discard

abbrev pub open_if : ℕ → Bytes → Bytes
open_if depth c = line depth (codes "if (" ∷ c ∷ codes ") {" ∷ [])

abbrev pub close : ℕ → Bytes
close depth = line depth (codes "}" ∷ [])

unfoldable mutual
  pub ts_stmt : ℕ → Dest → TsTypeCtx → Node → StmtOut
  ts_stmt depth d ctx (node list l s (cons (node symbol m h c) args)) =
      let as_do = ts_seq depth d ctx args in
      let as_let = ts_let depth d ctx args in
      let as_when = ts_when depth d ctx args in
      let as_loop = ts_loop depth d ctx args in
      let as_if = ts_if depth d ctx (node list l s (cons (node symbol m h c) args)) args in
      if strcmp_eq h (codes "do")
      then as_do
      else if strcmp_eq h (codes "let")
      then as_let
      else if strcmp_eq h (codes "when")
      then as_when
      else if strcmp_eq h (codes "if")
      then as_if
      else if strcmp_eq h (codes "set!")
      then set_stmt depth ctx args
      else if strcmp_eq h (codes "js/set!")
      then js_set_stmt depth ctx args
      else if strcmp_eq h (codes "js/aset!")
      then js_aset_stmt depth ctx args
      else if strcmp_eq h (codes "loop")
      then as_loop
      else if strcmp_eq h (codes "recur")
      then recur_stmt depth ctx d args
      else value_stmt depth d ctx (node list l s (cons (node symbol m h c) args))
  ts_stmt depth d ctx n = value_stmt depth d ctx n

  pub ts_seq : ℕ → Dest → TsTypeCtx → Nodes → StmtOut
  ts_seq depth d ctx nil = done [] ctx
  ts_seq depth d ctx (cons n nil) = ts_stmt depth d ctx n
  ts_seq depth d ctx (cons n (cons m ms)) =
      let skipped = ts_seq depth d ctx (cons m ms) in
      let both =
        and_done (ts_stmt depth discard ctx n)
          (λ x ctx'. and_done (ts_seq depth d ctx' (cons m ms)) (λ y ctx''. done (x ++ y) ctx'')) in
      if has_type n number then skipped else both

  pub ts_let : ℕ → Dest → TsTypeCtx → Nodes → StmtOut
  ts_let depth d ctx (cons (node vec l s bs) body) =
      let whole =
        with_bound (emit_bindings (suc depth) ctx bs)
          (λ x ctx' ids. block depth ctx x (ts_seq (suc depth) d ctx' body)) in
      if count bs % 2 == 0 then whole else stopped let_shape
  ts_let depth d ctx args = stopped let_shape

  pub ts_when : ℕ → Dest → TsTypeCtx → Nodes → StmtOut
  ts_when depth d ctx nil = stopped when_shape
  ts_when depth d ctx (cons c body) = with_value (emit_ts_expr ctx c) (λ x t.
      and_done (ts_seq (suc depth) (loop_or_discard d) ctx body)
        (λ y ctx'. done (open_if depth x ++ (y ++ close depth)) ctx'))

  pub ts_if : ℕ → Dest → TsTypeCtx → Node → Nodes → StmtOut
  ts_if depth d ctx n (cons c (cons t nil)) = with_value (emit_ts_expr ctx c) (λ x u.
      and_done (ts_stmt (suc depth) d ctx t)
        (λ y ctx'. done (open_if depth x ++ (y ++ close depth)) ctx'))
  ts_if depth d ctx n (cons c (cons t (cons e nil))) =
      let branches = with_value (emit_ts_expr ctx c) (λ x u.
        and_done (ts_stmt (suc depth) d ctx t) (λ y ctx'.
          and_done (ts_stmt (suc depth) d ctx' e) (λ z ctx''.
            done
              (open_if depth x ++ (y ++ (line depth (codes "} else {" ∷ []) ++ (z ++ close depth))))
              ctx''))) in
      if not (needs_stmt n) && is_value d then value_stmt depth d ctx n else branches
  ts_if depth d ctx n args = value_stmt depth d ctx n

  pub ts_loop : ℕ → Dest → TsTypeCtx → Nodes → StmtOut
  ts_loop depth d ctx (cons (node vec l s bs) (cons b body)) =
      let whole = with_bound (emit_bindings (suc depth) ctx bs) (λ x ctx' ids. block depth ctx x (
        and_done (ts_seq (suc (suc depth)) (in_loop (take 16 ids) d) ctx' (cons b body)) (λ y ctx''.
          done
            (line (suc depth) (codes "while (true) {" ∷ [])
              ++ (y ++ (line (suc (suc depth)) (codes "break;" ∷ []) ++ close (suc depth))))
            ctx''))) in
      if count bs % 2 == 0 then whole else stopped loop_shape
  ts_loop depth d ctx args = stopped loop_shape
