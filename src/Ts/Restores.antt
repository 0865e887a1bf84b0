-- ===== src/Ts/Restores.antt =====
-- src/emit_ts.c: a statement leaves the locals and the rest of what the emitter knows as they were.
use parena.Prelude.{take, ℕ, suc, ◌%◌, not, ◌&&◌, ◌==◌, if_cases, codes, strcmp_eq}
use parena.Ast.{Node, Nodes, node, nil, cons, list, vec, symbol, number, has_type, count}
use parena.Ts.Context.{TsTypeCtx}
use parena.Ts.Expr.{emit_ts_expr}
use parena.Ts.Dest.{is_value, Dest, discard, in_loop, emit_bindings}
use parena.Ts.Stmt.{loop_or_discard, needs_stmt, ts_stmt, ts_seq, ts_let, ts_when, ts_if, ts_loop}
use parena.Ts.Same.{
  Restores, same, after, with_value-Restores, and_done-Restores, texted, block-Restores,
  with_bound-Restores, restored, no_lines,
}
use parena.Ts.Leaves.{
  value-Restores, set-Restores, js_set-Restores, js_aset-Restores, recur-Restores,
  emit_bindings-Extends,
}

mutual
  unfolding ts_stmt

  stmt-Restores :
      (depth : ℕ) (d : Dest) (ctx : TsTypeCtx) (n : Node) → Restores ctx (ts_stmt depth d ctx n)
  stmt-Restores depth d ctx (node list l s (cons (node symbol m h c) args)) =
      let n = node list l s (cons (node symbol m h c) args) in
      if_cases (Restores ctx) (strcmp_eq h (codes "do")) (λ e. seq-Restores depth d ctx args)
        (λ e.
          if_cases (Restores ctx) (strcmp_eq h (codes "let")) (λ e. let-Restores depth d ctx args)
            (λ e.
              if_cases (Restores ctx) (strcmp_eq h (codes "when"))
                (λ e. when-Restores depth d ctx args)
                (λ e.
                  if_cases (Restores ctx) (strcmp_eq h (codes "if"))
                    (λ e. if-Restores depth d ctx n args)
                    (λ e.
                      if_cases (Restores ctx) (strcmp_eq h (codes "set!"))
                        (λ e. set-Restores depth ctx args)
                        (λ e.
                          if_cases (Restores ctx) (strcmp_eq h (codes "js/set!"))
                            (λ e. js_set-Restores depth ctx args)
                            (λ e.
                              if_cases (Restores ctx) (strcmp_eq h (codes "js/aset!"))
                                (λ e. js_aset-Restores depth ctx args)
                                (λ e.
                                  if_cases (Restores ctx) (strcmp_eq h (codes "loop"))
                                    (λ e. loop-Restores depth d ctx args)
                                    (λ e.
                                      if_cases (Restores ctx) (strcmp_eq h (codes "recur"))
                                        (λ e. recur-Restores depth ctx d args)
                                        (λ e. value-Restores depth d ctx n)))))))))
  stmt-Restores depth d ctx n = value-Restores depth d ctx n

  seq-Restores :
      (depth : ℕ) (d : Dest) (ctx : TsTypeCtx) (ns : Nodes) → Restores ctx (ts_seq depth d ctx ns)
  seq-Restores depth d ctx nil = restored (same ctx)
  seq-Restores depth d ctx (cons n nil) = stmt-Restores depth d ctx n
  seq-Restores depth d ctx (cons n (cons m ms)) =
      if_cases (Restores ctx) (has_type n number) (λ e. seq-Restores depth d ctx (cons m ms))
        (λ e.
          and_done-Restores (ts_stmt depth discard ctx n) _ (stmt-Restores depth discard ctx n)
            (λ x c p.
              texted (ts_seq depth d c (cons m ms)) _
                (after (ts_seq depth d c (cons m ms)) p (seq-Restores depth d c (cons m ms)))))

  let-Restores :
      (depth : ℕ) (d : Dest) (ctx : TsTypeCtx) (args : Nodes)
      → Restores ctx (ts_let depth d ctx args)
  let-Restores depth d ctx (cons (node vec l s bs) body) =
      if_cases (Restores ctx) (count bs % 2 == 0)
        (λ e.
          with_bound-Restores (emit_bindings (suc depth) ctx bs) _
            (emit_bindings-Extends (suc depth) ctx bs)
            (λ x c ids p.
              block-Restores depth x (ts_seq (suc depth) d c body) p
                (seq-Restores (suc depth) d c body)))
        (λ e. no_lines)
  let-Restores depth d ctx args = no_lines

  when-Restores :
      (depth : ℕ) (d : Dest) (ctx : TsTypeCtx) (args : Nodes)
      → Restores ctx (ts_when depth d ctx args)
  when-Restores depth d ctx nil = no_lines
  when-Restores depth d ctx (cons c body) = with_value-Restores (emit_ts_expr ctx c) _ (λ x t.
      texted (ts_seq (suc depth) (loop_or_discard d) ctx body) _
        (seq-Restores (suc depth) (loop_or_discard d) ctx body))

  if-Restores :
      (depth : ℕ) (d : Dest) (ctx : TsTypeCtx) (n : Node) (args : Nodes)
      → Restores ctx (ts_if depth d ctx n args)
  if-Restores depth d ctx n nil = value-Restores depth d ctx n
  if-Restores depth d ctx n (cons c nil) = value-Restores depth d ctx n
  if-Restores depth d ctx n (cons c (cons t nil)) =
      with_value-Restores (emit_ts_expr ctx c) _
        (λ x u. texted (ts_stmt (suc depth) d ctx t) _ (stmt-Restores (suc depth) d ctx t))
  if-Restores depth d ctx n (cons c (cons t (cons e nil))) =
      if_cases (Restores ctx) (not (needs_stmt n) && is_value d) (λ q. value-Restores depth d ctx n)
        (λ q. with_value-Restores (emit_ts_expr ctx c) _ (λ x u.
          and_done-Restores (ts_stmt (suc depth) d ctx t) _ (stmt-Restores (suc depth) d ctx t)
            (λ y c' p.
              texted (ts_stmt (suc depth) d c' e) _
                (after (ts_stmt (suc depth) d c' e) p (stmt-Restores (suc depth) d c' e)))))
  if-Restores depth d ctx n (cons c (cons t (cons e (cons r rs)))) = value-Restores depth d ctx n

  loop-Restores :
      (depth : ℕ) (d : Dest) (ctx : TsTypeCtx) (args : Nodes)
      → Restores ctx (ts_loop depth d ctx args)
  loop-Restores depth d ctx (cons (node vec l s bs) (cons b body)) =
      if_cases (Restores ctx) (count bs % 2 == 0)
        (λ e.
          with_bound-Restores (emit_bindings (suc depth) ctx bs) _
            (emit_bindings-Extends (suc depth) ctx bs)
            (λ x c ids p.
              let rounds = ts_seq (suc (suc depth)) (in_loop (take 16 ids) d) c (cons b body) in
              block-Restores depth x _ p (
                texted rounds _
                  (seq-Restores (suc (suc depth)) (in_loop (take 16 ids) d) c (cons b body)))))
        (λ e. no_lines)
  loop-Restores depth d ctx args = no_lines

-- Whatever the statement, where its value goes and however deep it stands: if lines come out, as many
-- locals are in use behind it as before it, and their slots hold what they held, whatever `let` and
-- `loop` have pushed in between, and the functions, the module's variables and the function's kind are the same.
pub ts_stmt-Restores :
    (depth : ℕ) (d : Dest) (ctx : TsTypeCtx) (n : Node) → Restores ctx (ts_stmt depth d ctx n)
ts_stmt-Restores = stmt-Restores
