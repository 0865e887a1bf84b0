-- ===== src/Sugar/Forms.antt =====
-- src/ast_sugar.h: the forms and what each is rewritten to, once its children are.
use parena.Prelude.{
  ℕ, zero, suc, ◌+◌, ◌/◌, ◌%◌, Bool, false, not, ◌&&◌, ◌||◌, [], ◌∷◌, ◌++◌, Option, none, some, ltb,
  leb, ◌==◌, if◌then◌else◌, Bytes, codes, strcmp_eq,
}
use parena.Ast.{
  Node, Nodes, nil, cons, list, vec, symbol, keyword, number, has_type, text_of, children_of, count,
  node_new_atom, node_new_compound,
}

abbrev pub mk_sym : Bytes → ℕ → Node
mk_sym text line = node_new_atom symbol text line

abbrev pub mk_number : Bytes → ℕ → Node
mk_number text line = node_new_atom number text line

-- A list form with a head.
abbrev pub mk_form : Bytes → Nodes → ℕ → Node
mk_form head args line = node_new_compound list line (cons (mk_sym head line) args)

abbrev pub mk_call2 : Bytes → Node → Node → ℕ → Node
mk_call2 head a b line = mk_form head (cons a (cons b nil)) line

-- (if test expr), or (if test expr rest).
abbrev pub mk_if : ℕ → Node → Node → Option Node → Node
mk_if line test expr none = mk_form (codes "if") (cons test (cons expr nil)) line
mk_if line test expr (some rest) = mk_form (codes "if") (cons test (cons expr (cons rest nil))) line

unfoldable pub is_else_test : Node → Bool
is_else_test t =
    has_type t keyword && strcmp_eq (text_of t) (codes ":else")
    || has_type t symbol
      && (strcmp_eq (text_of t) (codes "else") || strcmp_eq (text_of t) (codes "true"))

unfoldable pub is_fold_op : Bytes → Bool
is_fold_op h =
    strcmp_eq h (codes "+")
    || strcmp_eq h (codes "-")
    || strcmp_eq h (codes "*")
    || strcmp_eq h (codes "and")
    || strcmp_eq h (codes "or")
    || strcmp_eq h (codes "bit-and")
    || strcmp_eq h (codes "bit-or")
    || strcmp_eq h (codes "bit-xor")

-- `snprintf` of "%d", for an `int`, which has at most ten digits.
unfoldable pub digits : ℕ → ℕ → Bytes → Bytes
digits zero k acc = acc
digits (suc fuel) k acc =
    let more = digits fuel (k / 10) ((48 + k % 10) ∷ acc) in
    if ltb k 10 then (48 + k % 10) ∷ acc else more

abbrev pub temp_name : Bytes → ℕ → Bytes
temp_name prefix k = prefix ++ digits 10 k []

-- The operation folded to the left, from an accumulated call on.
unfoldable pub fold_rest : Bytes → ℕ → Node → Nodes → Node
fold_rest h line acc nil = acc
fold_rest h line acc (cons x xs) = fold_rest h line (mk_call2 h acc x line) xs

abbrev pub fold_form : Node → Bytes → Nodes → ℕ → Node
fold_form n h (cons a (cons b rest)) line = fold_rest h line (mk_call2 h a b line) rest
fold_form n h args line = n

-- (unless c body...) is (when (not c) body...)
abbrev pub unless_form : Node → Nodes → ℕ → Node
unless_form n (cons c body) line =
    mk_form (codes "when") (cons (mk_form (codes "not") (cons c nil) line) body) line
unless_form n nil line = n

abbrev pub first_is_symbol : Nodes → Bool
first_is_symbol nil = false
first_is_symbol (cons n ns) = has_type n symbol

-- (inc! x) is (set! x (+ x 1))
abbrev pub step_form : Node → Bytes → Nodes → ℕ → Node
step_form n op (cons x nil) line =
    mk_form (codes "set!") (cons x (cons (mk_call2 op x (mk_number (codes "1") line) line) nil))
      line
step_form n op args line = n

-- (add! x v) is (set! x (+ x v))
abbrev pub update_form : Node → Bytes → Nodes → ℕ → Node
update_form n op (cons x (cons v nil)) line =
    mk_form (codes "set!") (cons x (cons (mk_call2 op x v line) nil)) line
update_form n op args line = n

-- The loop over the clauses of `cond`, from the last to the first.
unfoldable pub cond_rest : ℕ → Nodes → Option Node
cond_rest line nil = none
cond_rest line (cons e nil) = some e
cond_rest line (cons test (cons expr more)) =
    let rest = cond_rest line more in
    if is_else_test test then some expr else some (mk_if line test expr rest)

abbrev pub or_unit : Option Node → ℕ → Node
or_unit none line = mk_sym (codes "unit") line
or_unit (some n) line = n

-- The tests of a clause with several values, joined by `or`.
unfoldable pub or_tests : ℕ → Node → Node → Nodes → Node
or_tests line tmp test nil = test
or_tests line tmp test (cons v vs) =
    or_tests line tmp (mk_call2 (codes "or") test (mk_call2 (codes "=") tmp v line) line) vs

abbrev pub list_test : ℕ → Node → Nodes → Option Node
list_test line tmp nil = none
list_test line tmp (cons v vs) = some (or_tests line tmp (mk_call2 (codes "=") tmp v line) vs)

abbrev pub clause_test : ℕ → Node → Node → Option Node
clause_test line tmp vals =
    if has_type vals list
    then list_test line tmp (children_of vals)
    else some (mk_call2 (codes "=") tmp vals line)

abbrev pub case_clause : ℕ → Option Node → Node → Option (Option Node) → Option (Option Node)
case_clause line test expr none = none
case_clause line none expr (some rest) = none
case_clause line (some test) expr (some rest) = some (some (mk_if line test expr rest))

unfoldable pub case_rest : ℕ → Node → Nodes → Option (Option Node)
case_rest line tmp nil = some none
case_rest line tmp (cons e nil) = some (some e)
case_rest line tmp (cons vals (cons expr more)) =
    case_clause line (clause_test line tmp vals) expr (case_rest line tmp more)

-- (let [tmp subject] body)
abbrev pub bind_temp : ℕ → Node → Node → Node → Node
bind_temp line tmp subject body =
    mk_form (codes "let")
      (cons (node_new_compound vec line (cons tmp (cons subject nil))) (cons body nil)) line

-- A symbol or a number is used as it stands; any other expression is bound to a temporary.
abbrev pub is_simple : Node → Bool
is_simple n = has_type n symbol || has_type n number

abbrev pub finish_case : ℕ → (Node → Node) → ℕ → Option (Option Node) → Option (Node × ℕ)
finish_case line wrap k none = none
finish_case line wrap k (some rest) = some (wrap (or_unit rest line), k)

abbrev pub case_form : Node → Nodes → ℕ → ℕ → Option (Node × ℕ)
case_form n nil line k = some (n, k)
case_form n (cons subject clauses) line k =
    let tmp = mk_sym (temp_name (codes "__case") k) line in
    if is_simple subject
    then finish_case line (λ rest. rest) k (case_rest line subject clauses)
    else finish_case line (bind_temp line tmp subject) (k + 1) (case_rest line tmp clauses)

abbrev pub append_last : Nodes → Node → Nodes
append_last nil x = cons x nil
append_last (cons n ns) x = cons n (append_last ns x)

-- (loop [var 0] (when (< var limit) body... (recur (+ var 1))))
abbrev pub counted_loop : ℕ → Node → Node → Nodes → Node
counted_loop line var limit body =
    let step = mk_call2 (codes "+") var (mk_number (codes "1") line) line in
    let rec = mk_form (codes "recur") (cons step nil) line in
    mk_form (codes "loop")
      (cons (node_new_compound vec line (cons var (cons (mk_number (codes "0") line) nil))) (
        cons
          (mk_form (codes "when")
            (cons (mk_call2 (codes "<") var limit line) (append_last body rec)) line)
          nil))
      line

abbrev pub dotimes_form : Node → Nodes → Nodes → ℕ → ℕ → Node × ℕ
dotimes_form n (cons var (cons limit nil)) body line k =
    let tmp = mk_sym (temp_name (codes "__dn") k) line in
    if is_simple limit
    then (counted_loop line var limit body, k)
    else (bind_temp line tmp limit (counted_loop line var tmp body), k + 1)
dotimes_form n binding body line k = (n, k)

-- The binding vector of `dotimes` names its counter by a symbol.
abbrev pub is_counter : Nodes → Bool
is_counter (cons b (cons e body)) =
    has_type b vec && count (children_of b) == 2 && first_is_symbol (children_of b)
is_counter args = false

abbrev pub dotimes_args : Node → Nodes → ℕ → ℕ → Node × ℕ
dotimes_args n (cons b body) line k = dotimes_form n (children_of b) body line k
dotimes_args n nil line k = (n, k)

abbrev pub is_named : Bytes → Nodes → Bytes → ℕ → Bool
is_named h args name n = strcmp_eq h name && leb n (count args)

abbrev pub is_step : Bytes → Nodes → Bool
is_step h args =
    (strcmp_eq h (codes "inc!") || strcmp_eq h (codes "dec!"))
    && count args == 1
    && first_is_symbol args

abbrev pub is_update : Bytes → Nodes → Bool
is_update h args =
    (strcmp_eq h (codes "add!") || strcmp_eq h (codes "sub!") || strcmp_eq h (codes "mul!"))
    && count args == 2
    && first_is_symbol args

abbrev pub step_op : Bytes → Bytes
step_op h = if strcmp_eq h (codes "inc!") then codes "+" else codes "-"

abbrev pub update_op : Bytes → Bytes
update_op h =
    if strcmp_eq h (codes "add!")
    then codes "+"
    else if strcmp_eq h (codes "sub!")
    then codes "-"
    else codes "*"

-- `n` is the form (h args...), and `k` the count of temporaries so far. `skip` is `g_sugar_skip_cond`.
unfoldable pub expand_form : Bool → Node → Bytes → Nodes → ℕ → ℕ → Option (Node × ℕ)
expand_form skip n h args line k =
    if is_fold_op h && ltb 2 (count args)
    then some (fold_form n h args line, k)
    else if is_named h args (codes "unless") 1
    then some (unless_form n args line, k)
    else if is_step h args
    then some (step_form n (step_op h) args line, k)
    else if is_update h args
    then some (update_form n (update_op h) args line, k)
    else if strcmp_eq h (codes "cond") && not skip
    then some (or_unit (cond_rest line args) line, k)
    else if is_named h args (codes "case") 1
    then case_form n args line k
    else if strcmp_eq h (codes "dotimes") && is_counter args
    then some (dotimes_args n args line k)
    else some (n, k)
