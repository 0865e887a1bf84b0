-- ===== src/Sugar/Tests.antt =====
-- Runs of the rewrites.
use parena.Prelude.{◌≡◌, ◌↔◌, refl, false, [], some, Bytes, codes, c_str, bytes_eq, strcmp_eq}
use parena.Ast.{
  Node, Nodes, node, nil, cons, list, vec, symbol, number, keyword, node_new_atom,
  node_new_compound,
}
use parena.Sugar.{ast_sugar, expand}
use parena.Sugar.Forms.{
  is_else_test, is_fold_op, digits, fold_rest, cond_rest, or_tests, case_rest, expand_form,
}
use parena.Sugar.Core.{IsCore}
use parena.Sugar.Whole.{ast_sugar-IsCore, ast_sugar-same_iff, ast_sugar_idem}

abbrev name : Bytes → Node
name s = node symbol 1 s nil

abbrev int : Bytes → Node
int s = node number 1 s nil

abbrev call : Bytes → Nodes → Node
call h args = node list 1 [] (cons (name h) args)

-- (cond a (+ x y z) :else (inc! x))
abbrev choice : Node
choice = call (codes "cond") (
    cons (name (codes "a")) (
      cons
        (call (codes "+")
          (cons (name (codes "x")) (cons (name (codes "y")) (cons (name (codes "z")) nil))))
        (cons (node keyword 1 (codes ":else") nil)
          (cons (call (codes "inc!") (cons (name (codes "x")) nil)) nil))))

-- (if a (+ (+ x y) z) (set! x (+ x 1)))
abbrev choice_core : Node
choice_core = call (codes "if") (
    cons (name (codes "a")) (
      cons
        (call (codes "+") (
          cons (call (codes "+") (cons (name (codes "x")) (cons (name (codes "y")) nil)))
            (cons (name (codes "z")) nil)))
        (cons
          (call (codes "set!") (
            cons (name (codes "x"))
              (cons (call (codes "+") (cons (name (codes "x")) (cons (int (codes "1")) nil))) nil)))
          nil)))

choice_lem : ast_sugar false choice 0 ≡ some (choice_core, 0)
unfolding ast_sugar expand expand_form is_fold_op is_else_test fold_rest cond_rest strcmp_eq c_str
    bytes_eq node_new_atom node_new_compound
choice_lem = refl

-- (case (f x) (1 2) a b) and (let [__case7 (f x)] (if (or (= __case7 1) (= __case7 2)) a b))
abbrev subject : Node
subject = call (codes "f") (cons (name (codes "x")) nil)

abbrev case_of : Node
case_of = call (codes "case") (
    cons subject (
      cons (node list 1 [] (cons (int (codes "1")) (cons (int (codes "2")) nil)))
        (cons (name (codes "a")) (cons (name (codes "b")) nil))))

abbrev equals : Bytes → Node
equals v = call (codes "=") (cons (name (codes "__case7")) (cons (int v) nil))

abbrev case_core : Node
case_core = call (codes "let") (
    cons (node vec 1 [] (cons (name (codes "__case7")) (cons subject nil))) (
      cons
        (call (codes "if") (
          cons (call (codes "or") (cons (equals (codes "1")) (cons (equals (codes "2")) nil)))
            (cons (name (codes "a")) (cons (name (codes "b")) nil))))
        nil))

case_lem : ast_sugar false case_of 7 ≡ some (case_core, 8)
unfolding ast_sugar expand expand_form is_fold_op is_else_test case_rest or_tests digits strcmp_eq
    c_str bytes_eq node_new_atom node_new_compound
case_lem = refl

ast_sugar-IsCore_example : IsCore false choice_core
ast_sugar-IsCore_example = ast_sugar-IsCore false choice 0 choice_lem

ast_sugar-same_iff_example :
    (ast_sugar false case_core 3 ≡ some (case_core, 3)) ↔ IsCore false case_core
ast_sugar-same_iff_example = ast_sugar-same_iff false case_core 3

ast_sugar_idem_example : ast_sugar false case_core 9 ≡ some (case_core, 9)
ast_sugar_idem_example = ast_sugar_idem false case_of 7 9 case_lem
