-- ===== src/Sugar/Expand.antt =====
-- src/ast_sugar.h: `dotimes`, and the choice among the forms.
use parena.Prelude.{
  ℕ, ◌≡◌, refl, Bool, true, false, not, ◌&&◌, ◌||◌, ltb, ◌==◌, Bytes, codes, if_cases, strcmp_eq,
  c_str, bytes_eq, arith, some,
}
use parena.Ast.{
  Node, Nodes, node, nil, cons, list, vec, map, symbol, keyword, number, string, colon, at, count,
  node_new_compound,
}
use parena.Sugar.Forms.{
  is_fold_op, is_named, is_step, is_update, is_counter, mk_form, mk_sym, mk_number, mk_call2,
  is_simple, append_last, counted_loop, dotimes_form, dotimes_args, expand_form, temp_name,
}
use parena.Sugar.Core.{is_sugar, IsCore, AllCore, or_false}
use parena.Sugar.Free.{
  Free, form-IsCore, call-IsCore, vec-IsCore, atom-IsCore, fold_form-IsCore, unless_form-IsCore,
  step_form-IsCore, update_form-IsCore,
}
use parena.Sugar.Branches.{bind_temp-IsCore, cond-IsCore, case_form-Free}

append_last-AllCore :
    (skip : Bool) (xs : Nodes) (x : Node)
    → AllCore skip xs
    → IsCore skip x
    → AllCore skip (append_last xs x)
append_last-AllCore skip nil x h hx = (hx, tt)
append_last-AllCore skip (cons n ns) x h hx = (h.0, append_last-AllCore skip ns x h.1 hx)

counted_loop-IsCore :
    (skip : Bool) (line : ℕ) (var limit : Node) (body : Nodes)
    → IsCore skip var
    → IsCore skip limit
    → AllCore skip body
    → IsCore skip (counted_loop line var limit body)
unfolding is_fold_op strcmp_eq c_str bytes_eq
counted_loop-IsCore skip line var limit body hv hl hb =
    let one = (atom-IsCore skip line (codes "1")).1 in
    let zero_ = (atom-IsCore skip line (codes "0")).1 in
    let step = mk_call2 (codes "+") var (mk_number (codes "1") line) line in
    let rec = mk_form (codes "recur") (cons step nil) line in
    let test = mk_call2 (codes "<") var limit line in
    let inner = mk_form (codes "when") (cons test (append_last body rec)) line in
    let bv = cons var (cons (mk_number (codes "0") line) nil) in
    let hstep = call-IsCore skip (codes "+") var (mk_number (codes "1") line) line refl hv one in
    let hrec = form-IsCore skip (codes "recur") (cons step nil) line refl (hstep, tt) in
    let htest = form-IsCore skip (codes "<") (cons var (cons limit nil)) line refl (hv, (hl, tt)) in
    let hinner =
      form-IsCore skip (codes "when") (cons test (append_last body rec)) line refl
        (htest, append_last-AllCore skip body rec hb hrec) in
    form-IsCore skip (codes "loop") (cons (node_new_compound vec line bv) (cons inner nil)) line
      refl (vec-IsCore skip bv line (hv, (zero_, tt)), (hinner, tt))

dotimes_form-Free :
    (skip : Bool) (n : Node) (bs body : Nodes) (line k : ℕ)
    → (count bs == 2) ≡ true
    → AllCore skip bs
    → AllCore skip body
    → Free skip (some (dotimes_form n bs body line k))
dotimes_form-Free skip n (cons v (cons e nil)) body line k l hb h =
    let tmp = mk_sym (temp_name (codes "__dn") k) line in
    let hm = (atom-IsCore skip line (temp_name (codes "__dn") k)).0 in
    if_cases (λ r. Free skip (some r)) (is_simple e)
      (λ _. counted_loop-IsCore skip line v e body hb.0 hb.1.0 h)
      (λ _.
        bind_temp-IsCore skip line tmp e (counted_loop line v tmp body) hm hb.1.0
          (counted_loop-IsCore skip line v tmp body hb.0 hm h))
dotimes_form-Free skip n nil body line k l hb h = absurd (ground arith)
dotimes_form-Free skip n (cons a nil) body line k l hb h = absurd (ground arith)
dotimes_form-Free skip n (cons a (cons b (cons c cs))) body line k l hb h = absurd (ground arith)

and_true : {a b : Bool} → (a && b) ≡ true → (a ≡ true) × (b ≡ true)
and_true h = ground arith

dotimes_args-Free :
    (skip : Bool) (n : Node) (args : Nodes) (line k : ℕ)
    → is_counter args ≡ true
    → AllCore skip args
    → Free skip (some (dotimes_args n args line k))
dotimes_args-Free skip n nil line k l h = absurd (ground arith)
dotimes_args-Free skip n (cons b nil) line k l h = absurd (ground arith)
dotimes_args-Free skip n (cons (node vec bl bt bs) (cons e body)) line k l h =
    dotimes_form-Free skip n bs (cons e body) line k (and_true l).0 h.0 h.1
dotimes_args-Free skip n (cons (node list bl bt bs) (cons e body)) line k l h =
    absurd (ground arith)
dotimes_args-Free skip n (cons (node map bl bt bs) (cons e body)) line k l h = absurd (ground arith)
dotimes_args-Free skip n (cons (node symbol bl bt bs) (cons e body)) line k l h =
    absurd (ground arith)
dotimes_args-Free skip n (cons (node keyword bl bt bs) (cons e body)) line k l h =
    absurd (ground arith)
dotimes_args-Free skip n (cons (node string bl bt bs) (cons e body)) line k l h =
    absurd (ground arith)
dotimes_args-Free skip n (cons (node number bl bt bs) (cons e body)) line k l h =
    absurd (ground arith)
dotimes_args-Free skip n (cons (node colon bl bt bs) (cons e body)) line k l h =
    absurd (ground arith)
dotimes_args-Free skip n (cons (node at bl bt bs) (cons e body)) line k l h = absurd (ground arith)

or_both : {a b : Bool} → a ≡ false → b ≡ false → (a || b) ≡ false
or_both h k = ground arith

-- The form that a rewrite makes of core arguments is core, whichever rewrite it is.
pub expand_form-Free :
    (skip : Bool) (n : Node) (h : Bytes) (args : Nodes) (line k : ℕ)
    → AllCore skip args
    → (is_sugar skip h args ≡ false → IsCore skip n)
    → Free skip (expand_form skip n h args line k)
unfolding expand_form
expand_form-Free skip n h args line k ha hn =
    if_cases (Free skip) (is_fold_op h && ltb 2 (count args))
      (λ e. fold_form-IsCore skip n h args line (and_true e).0 (and_true e).1 ha)
      λ n1.
        if_cases (Free skip) (is_named h args (codes "unless") 1)
          (λ e. unless_form-IsCore skip n args line (and_true e).1 ha)
          λ n2.
            if_cases (Free skip) (is_step h args)
              (λ e. step_form-IsCore skip n h args line (and_true (and_true e).0).1 ha)
              λ n3.
                if_cases (Free skip) (is_update h args)
                  (λ e. update_form-IsCore skip n h args line (and_true (and_true e).0).1 ha)
                  λ n4.
                    if_cases (Free skip) (strcmp_eq h (codes "cond") && not skip)
                      (λ _. cond-IsCore skip line args ha)
                      λ n5.
                        if_cases (Free skip) (is_named h args (codes "case") 1)
                          (λ e. case_form-Free skip n args line k (and_true e).1 ha)
                          λ n6.
                            if_cases (Free skip) (strcmp_eq h (codes "dotimes") && is_counter args)
                              (λ e. dotimes_args-Free skip n args line k (and_true e).1 ha)
                              λ n7. hn (
                                or_both n1 (
                                  or_both n2
                                    (or_both n3 (or_both n4 (or_both n5 (or_both n6 n7))))))

none_of :
    (a b c d e f g : Bool)
    → (a || (b || (c || (d || (e || (f || g)))))) ≡ false
    → (a ≡ false)
      × ((b ≡ false) × ((c ≡ false) × ((d ≡ false) × ((e ≡ false) × ((f ≡ false) × (g ≡ false))))))
none_of a b c d e f g h =
    let (n1, h1) = or_false {a = a} h in
    let (n2, h2) = or_false {a = b} h1 in
    let (n3, h3) = or_false {a = c} h2 in
    let (n4, h4) = or_false {a = d} h3 in
    let (n5, h5) = or_false {a = e} h4 in
    let (n6, n7) = or_false {a = f} h5 in (n1, (n2, (n3, (n4, (n5, (n6, n7))))))

-- A form that is no sugar stays as it is.
pub expand_form-same :
    (skip : Bool) (n : Node) (h : Bytes) (args : Nodes) (line k : ℕ)
    → is_sugar skip h args ≡ false
    → expand_form skip n h args line k ≡ some (n, k)
unfolding expand_form
expand_form-same skip n h args line k e =
    let (n1, (n2, (n3, (n4, (n5, (n6, n7)))))) =
      none_of (is_fold_op h && ltb 2 (count args)) (is_named h args (codes "unless") 1)
        (is_step h args) (is_update h args) (strcmp_eq h (codes "cond") && not skip)
        (is_named h args (codes "case") 1) (strcmp_eq h (codes "dotimes") && is_counter args) e in
    rw (n1, n2, n3, n4, n5, n6, n7) refl
