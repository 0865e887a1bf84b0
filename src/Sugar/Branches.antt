-- ===== src/Sugar/Branches.antt =====
-- src/ast_sugar.h: `cond`, `case` and `dotimes` leave forms of the core language.
use parena.Prelude.{
  ℕ, ◌+◌, ◌≡◌, refl, Bool, true, leb, codes, if_cases, strcmp_eq, c_str, bytes_eq, arith, Option,
  none, some,
}
use parena.Ast.{
  Node, Nodes, node, nil, cons, list, vec, map, symbol, keyword, number, string, colon, at, count,
  node_new_compound,
}
use parena.Sugar.Forms.{
  is_fold_op, is_else_test, mk_sym, mk_call2, mk_if, cond_rest, or_unit, or_tests, list_test,
  clause_test, case_clause, case_rest, bind_temp, is_simple, finish_case, case_form, temp_name,
}
use parena.Sugar.Core.{IsCore, AllCore}
use parena.Sugar.Free.{Free, form-IsCore, call-IsCore, vec-IsCore, atom-IsCore}

abbrev pub FreeRest : Bool → Option Node → Type 0
FreeRest skip none = Unit
FreeRest skip (some n) = IsCore skip n

if-IsCore :
    (skip : Bool) (line : ℕ) (test expr : Node) (rest : Option Node)
    → IsCore skip test
    → IsCore skip expr
    → FreeRest skip rest
    → IsCore skip (mk_if line test expr rest)
unfolding is_fold_op strcmp_eq c_str bytes_eq
if-IsCore skip line test expr none ht he hr =
    form-IsCore skip (codes "if") (cons test (cons expr nil)) line refl (ht, (he, tt))
if-IsCore skip line test expr (some r) ht he hr =
    form-IsCore skip (codes "if") (cons test (cons expr (cons r nil))) line refl
      (ht, (he, (hr, tt)))

cond_rest-FreeRest :
    (skip : Bool) (line : ℕ) (xs : Nodes) → AllCore skip xs → FreeRest skip (cond_rest line xs)
unfolding cond_rest
cond_rest-FreeRest skip line nil h = tt
cond_rest-FreeRest skip line (cons e nil) h = h.0
cond_rest-FreeRest skip line (cons t (cons e more)) h =
    if_cases (FreeRest skip) (is_else_test t) (λ _. h.1.0)
      (λ _.
        if-IsCore skip line t e (cond_rest line more) h.0 h.1.0
          (cond_rest-FreeRest skip line more h.1.1))

pub or_unit-IsCore :
    (skip : Bool) (line : ℕ) (r : Option Node) → FreeRest skip r → IsCore skip (or_unit r line)
or_unit-IsCore skip line none h = (atom-IsCore skip line (codes "unit")).0
or_unit-IsCore skip line (some n) h = h

pub cond-IsCore :
    (skip : Bool) (line : ℕ) (xs : Nodes)
    → AllCore skip xs
    → IsCore skip (or_unit (cond_rest line xs) line)
cond-IsCore skip line xs h =
    or_unit-IsCore skip line (cond_rest line xs) (cond_rest-FreeRest skip line xs h)

equals-IsCore :
    (skip : Bool) (line : ℕ) (a b : Node)
    → IsCore skip a
    → IsCore skip b
    → IsCore skip (mk_call2 (codes "=") a b line)
unfolding is_fold_op strcmp_eq c_str bytes_eq
equals-IsCore skip line a b ha hb =
    form-IsCore skip (codes "=") (cons a (cons b nil)) line refl (ha, (hb, tt))

or-IsCore :
    (skip : Bool) (line : ℕ) (a b : Node)
    → IsCore skip a
    → IsCore skip b
    → IsCore skip (mk_call2 (codes "or") a b line)
unfolding is_fold_op strcmp_eq c_str bytes_eq
or-IsCore skip line a b ha hb = call-IsCore skip (codes "or") a b line refl ha hb

or_tests-IsCore :
    (skip : Bool) (line : ℕ) (tmp test : Node) (vs : Nodes)
    → IsCore skip tmp
    → IsCore skip test
    → AllCore skip vs
    → IsCore skip (or_tests line tmp test vs)
unfolding or_tests
or_tests-IsCore skip line tmp test nil hm ht hv = ht
or_tests-IsCore skip line tmp test (cons v vs) hm ht hv =
    or_tests-IsCore skip line tmp
      (mk_call2 (codes "or") test (mk_call2 (codes "=") tmp v line) line) vs hm
      (or-IsCore skip line test (mk_call2 (codes "=") tmp v line) ht
        (equals-IsCore skip line tmp v hm hv.0))
      hv.1

list_test-FreeRest :
    (skip : Bool) (line : ℕ) (tmp : Node) (vs : Nodes)
    → IsCore skip tmp
    → AllCore skip vs
    → FreeRest skip (list_test line tmp vs)
list_test-FreeRest skip line tmp nil hm hv = tt
list_test-FreeRest skip line tmp (cons v vs) hm hv =
    or_tests-IsCore skip line tmp (mk_call2 (codes "=") tmp v line) vs hm
      (equals-IsCore skip line tmp v hm hv.0) hv.1

clause_test-FreeRest :
    (skip : Bool) (line : ℕ) (tmp vals : Node)
    → IsCore skip tmp
    → IsCore skip vals
    → FreeRest skip (clause_test line tmp vals)
clause_test-FreeRest skip line tmp (node list l s cs) hm hv =
    list_test-FreeRest skip line tmp cs hm hv.1
clause_test-FreeRest skip line tmp (node vec l s cs) hm hv =
    equals-IsCore skip line tmp (node vec l s cs) hm hv
clause_test-FreeRest skip line tmp (node map l s cs) hm hv =
    equals-IsCore skip line tmp (node map l s cs) hm hv
clause_test-FreeRest skip line tmp (node symbol l s cs) hm hv =
    equals-IsCore skip line tmp (node symbol l s cs) hm hv
clause_test-FreeRest skip line tmp (node keyword l s cs) hm hv =
    equals-IsCore skip line tmp (node keyword l s cs) hm hv
clause_test-FreeRest skip line tmp (node string l s cs) hm hv =
    equals-IsCore skip line tmp (node string l s cs) hm hv
clause_test-FreeRest skip line tmp (node number l s cs) hm hv =
    equals-IsCore skip line tmp (node number l s cs) hm hv
clause_test-FreeRest skip line tmp (node colon l s cs) hm hv =
    equals-IsCore skip line tmp (node colon l s cs) hm hv
clause_test-FreeRest skip line tmp (node at l s cs) hm hv =
    equals-IsCore skip line tmp (node at l s cs) hm hv

abbrev FreeCase : Bool → Option (Option Node) → Type 0
FreeCase skip none = Unit
FreeCase skip (some r) = FreeRest skip r

case_clause-FreeCase :
    (skip : Bool) (line : ℕ) (test : Option Node) (expr : Node) (r : Option (Option Node))
    → FreeRest skip test
    → IsCore skip expr
    → FreeCase skip r
    → FreeCase skip (case_clause line test expr r)
case_clause-FreeCase skip line test expr none ht he hr = tt
case_clause-FreeCase skip line none expr (some r) ht he hr = tt
case_clause-FreeCase skip line (some t) expr (some r) ht he hr =
    if-IsCore skip line t expr r ht he hr

case_rest-FreeCase :
    (skip : Bool) (line : ℕ) (tmp : Node) (xs : Nodes)
    → IsCore skip tmp
    → AllCore skip xs
    → FreeCase skip (case_rest line tmp xs)
unfolding case_rest
case_rest-FreeCase skip line tmp nil hm h = tt
case_rest-FreeCase skip line tmp (cons e nil) hm h = h.0
case_rest-FreeCase skip line tmp (cons v (cons e more)) hm h =
    case_clause-FreeCase skip line (clause_test line tmp v) e (case_rest line tmp more)
      (clause_test-FreeRest skip line tmp v hm h.0) h.1.0
      (case_rest-FreeCase skip line tmp more hm h.1.1)

pub bind_temp-IsCore :
    (skip : Bool) (line : ℕ) (tmp subject body : Node)
    → IsCore skip tmp
    → IsCore skip subject
    → IsCore skip body
    → IsCore skip (bind_temp line tmp subject body)
unfolding is_fold_op strcmp_eq c_str bytes_eq
bind_temp-IsCore skip line tmp subject body hm hs hb =
    let bv = node_new_compound vec line (cons tmp (cons subject nil)) in
    form-IsCore skip (codes "let") (cons bv (cons body nil)) line refl
      (vec-IsCore skip (cons tmp (cons subject nil)) line (hm, (hs, tt)), (hb, tt))

finish_case-Free :
    (skip : Bool) (line : ℕ) (wrap : Node → Node) (k : ℕ) (r : Option (Option Node))
    → ((n : Node) → IsCore skip n → IsCore skip (wrap n))
    → FreeCase skip r
    → Free skip (finish_case line wrap k r)
finish_case-Free skip line wrap k none hw hr = tt
finish_case-Free skip line wrap k (some r) hw hr =
    hw (or_unit r line) (or_unit-IsCore skip line r hr)

pub case_form-Free :
    (skip : Bool) (n : Node) (args : Nodes) (line k : ℕ)
    → leb 1 (count args) ≡ true
    → AllCore skip args
    → Free skip (case_form n args line k)
case_form-Free skip n nil line k l h = absurd (ground arith)
case_form-Free skip n (cons s clauses) line k l h =
    let tmp = mk_sym (temp_name (codes "__case") k) line in
    let hm = (atom-IsCore skip line (temp_name (codes "__case") k)).0 in
    if_cases (Free skip) (is_simple s)
      (λ _.
        finish_case-Free skip line (λ r. r) k (case_rest line s clauses) (λ _ hn. hn)
          (case_rest-FreeCase skip line s clauses h.0 h.1))
      (λ _.
        finish_case-Free skip line (bind_temp line tmp s) (k + 1) (case_rest line tmp clauses)
          (λ n hn. bind_temp-IsCore skip line tmp s n hm h.0 hn)
          (case_rest-FreeCase skip line tmp clauses hm h.1))
