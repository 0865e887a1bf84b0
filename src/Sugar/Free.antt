-- ===== src/Sugar/Free.antt =====
-- src/ast_sugar.h: each rewrite leaves a form of the core language, if its arguments are core.
use parena.Prelude.{
  ℕ, ◌≡◌, refl, Bool, true, false, leb, ltb, ◌==◌, Bytes, codes, if_cases, strcmp_eq, c_str,
  bytes_eq, arith, Option, none, some,
}
use parena.Ast.{Node, Nodes, nil, cons, vec, count, node_new_atom, node_new_compound}
use parena.Sugar.Forms.{
  is_fold_op, mk_form, mk_sym, mk_number, mk_call2, fold_rest, fold_form, unless_form, step_op,
  step_form, update_op, update_form,
}
use parena.Sugar.Core.{is_sugar, IsCore, AllCore, fold_call_plain}

pub form-IsCore :
    (skip : Bool) (head : Bytes) (args : Nodes) (line : ℕ)
    → is_sugar skip head args ≡ false
    → AllCore skip args
    → IsCore skip (mk_form head args line)
unfolding node_new_atom node_new_compound
form-IsCore skip head args line k h = (k, (tt, h))

pub call-IsCore :
    (skip : Bool) (op : Bytes) (a b : Node) (line : ℕ)
    → is_fold_op op ≡ true
    → IsCore skip a
    → IsCore skip b
    → IsCore skip (mk_call2 op a b line)
call-IsCore skip op a b line f ha hb =
    form-IsCore skip op (cons a (cons b nil)) line (fold_call_plain skip op a b f) (ha, (hb, tt))

pub vec-IsCore :
    (skip : Bool) (args : Nodes) (line : ℕ)
    → AllCore skip args
    → IsCore skip (node_new_compound vec line args)
unfolding node_new_compound
vec-IsCore skip args line h = h

pub atom-IsCore :
    (skip : Bool) (line : ℕ) (text : Bytes)
    → IsCore skip (mk_sym text line) × IsCore skip (mk_number text line)
unfolding node_new_atom
atom-IsCore skip line text = (tt, tt)

fold_rest-IsCore :
    (skip : Bool) (h : Bytes) (line : ℕ) (acc : Node) (xs : Nodes)
    → is_fold_op h ≡ true
    → IsCore skip acc
    → AllCore skip xs
    → IsCore skip (fold_rest h line acc xs)
unfolding fold_rest
fold_rest-IsCore skip h line acc nil f ha hx = ha
fold_rest-IsCore skip h line acc (cons x xs) f ha hx =
    fold_rest-IsCore skip h line (mk_call2 h acc x line) xs f
      (call-IsCore skip h acc x line f ha hx.0) hx.1

-- What a rewrite of the form gives; an error gives no tree.
abbrev pub Free : Bool → Option (Node × ℕ) → Type 0
Free skip none = Unit
Free skip (some (n, k)) = IsCore skip n

pub fold_form-IsCore :
    (skip : Bool) (n : Node) (h : Bytes) (args : Nodes) (line : ℕ)
    → is_fold_op h ≡ true
    → ltb 2 (count args) ≡ true
    → AllCore skip args
    → IsCore skip (fold_form n h args line)
fold_form-IsCore skip n h (cons a (cons b rest)) line f l hx =
    fold_rest-IsCore skip h line (mk_call2 h a b line) rest f
      (call-IsCore skip h a b line f hx.0 hx.1.0) hx.1.1
fold_form-IsCore skip n h nil line f l hx = absurd (ground arith)
fold_form-IsCore skip n h (cons a nil) line f l hx = absurd (ground arith)

pub unless_form-IsCore :
    (skip : Bool) (n : Node) (args : Nodes) (line : ℕ)
    → leb 1 (count args) ≡ true
    → AllCore skip args
    → IsCore skip (unless_form n args line)
unfolding is_fold_op strcmp_eq c_str bytes_eq
unless_form-IsCore skip n nil line l hx = absurd (ground arith)
unless_form-IsCore skip n (cons c body) line l hx =
    form-IsCore skip (codes "when") (cons (mk_form (codes "not") (cons c nil) line) body) line refl
      (form-IsCore skip (codes "not") (cons c nil) line refl (hx.0, tt), hx.1)

set-IsCore :
    (skip : Bool) (op : Bytes) (x v : Node) (line : ℕ)
    → is_fold_op op ≡ true
    → IsCore skip x
    → IsCore skip v
    → IsCore skip (mk_form (codes "set!") (cons x (cons (mk_call2 op x v line) nil)) line)
unfolding is_fold_op strcmp_eq c_str bytes_eq
set-IsCore skip op x v line f hx hv =
    form-IsCore skip (codes "set!") (cons x (cons (mk_call2 op x v line) nil)) line refl
      (hx, (call-IsCore skip op x v line f hx hv, tt))

step_op-fold : (h : Bytes) → is_fold_op (step_op h) ≡ true
unfolding is_fold_op strcmp_eq c_str bytes_eq
step_op-fold h =
    if_cases (λ o. is_fold_op o ≡ true) (strcmp_eq h (codes "inc!")) (λ _. refl) (λ _. refl)

update_op-fold : (h : Bytes) → is_fold_op (update_op h) ≡ true
unfolding is_fold_op strcmp_eq c_str bytes_eq
update_op-fold h =
    if_cases (λ o. is_fold_op o ≡ true) (strcmp_eq h (codes "add!")) (λ _. refl)
      (λ _.
        if_cases (λ o. is_fold_op o ≡ true) (strcmp_eq h (codes "sub!")) (λ _. refl) (λ _. refl))

pub step_form-IsCore :
    (skip : Bool) (n : Node) (h : Bytes) (args : Nodes) (line : ℕ)
    → (count args == 1) ≡ true
    → AllCore skip args
    → IsCore skip (step_form n (step_op h) args line)
step_form-IsCore skip n h (cons x nil) line l hx =
    set-IsCore skip (step_op h) x (mk_number (codes "1") line) line (step_op-fold h) hx.0
      (atom-IsCore skip line (codes "1")).1
step_form-IsCore skip n h nil line l hx = absurd (ground arith)
step_form-IsCore skip n h (cons x (cons y ys)) line l hx = absurd (ground arith)

pub update_form-IsCore :
    (skip : Bool) (n : Node) (h : Bytes) (args : Nodes) (line : ℕ)
    → (count args == 2) ≡ true
    → AllCore skip args
    → IsCore skip (update_form n (update_op h) args line)
update_form-IsCore skip n h (cons x (cons v nil)) line l hx =
    set-IsCore skip (update_op h) x v line (update_op-fold h) hx.0 hx.1.0
update_form-IsCore skip n h nil line l hx = absurd (ground arith)
update_form-IsCore skip n h (cons x nil) line l hx = absurd (ground arith)
update_form-IsCore skip n h (cons x (cons y (cons z zs))) line l hx = absurd (ground arith)
