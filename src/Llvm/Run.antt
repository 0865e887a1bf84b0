-- ===== src/Llvm/Run.antt =====
-- src/emit_llvm.c: what the code of an expression does when it runs, for any lowering of `if`. Only
-- the order in which the parts run is fixed; what an instruction computes is a parameter.
use parena.Prelude.{
  Bool, true, false, List, [], ◌∷◌, Option, none, some, if◌then◌else◌, Bytes, codes,
}
use parena.Ast.{Node, Nodes, node, nil, cons, list, symbol, string, number}
use parena.Llvm.Speculation.{IfLowering, by_branch, by_select, malformed}
use parena.Llvm.Dispatch.{
  Form, an_if, negation, connective, another, comparison, operation, form_of, opcode_traps,
}

-- A value with the state behind it, or the end of the program.
pub data Outcome (S V : Type 0) : Type 0 where
  trapped : Outcome S V
  returned : V → S → Outcome S V

abbrev pub Run : Type 0 → Type 0 → Type 0
Run S V = S → Outcome S V

-- The instructions: the value of an atom in a state, an operator of the tables on values, a division
-- or a remainder that may trap, and every other form from the runs of its parts.
pub record Machine (S V : Type 0) : Type 0 where
  pub atom : Node → S → V
  pub is_true : V → Bool
  pub unit_value : V
  pub operate : Bytes → List V → V
  pub divide : Bytes → List V → Option V
  pub other : Node → List (S → Outcome S V) → S → Outcome S V

module _ {S V : Type 0} where
  unfoldable pub and_then : Outcome S V → (V → Run S V) → Outcome S V
  and_then trapped k = trapped
  and_then (returned v s) k = k v s

  -- The operands run in order.
  unfoldable pub run_operands : List (Run S V) → (List V → Run S V) → Run S V
  run_operands [] k s = k [] s
  run_operands (r ∷ rs) k s = and_then (r s) (λ v t. run_operands rs (λ vs. k (v ∷ vs)) t)

  abbrev pub quotient : Option V → Run S V
  quotient none s = trapped
  quotient (some v) s = returned v s

module _ {S V : Type 0} (m : Machine S V) where
  -- One arm runs.
  unfoldable pub run_branch : Run S V → Run S V → Run S V → Run S V
  run_branch c t e s = and_then (c s) (λ v u. if m.is_true v then t u else e u)

  unfoldable pub run_when : Run S V → Run S V → Run S V
  run_when c t s = and_then (c s) (λ v u.
      if m.is_true v
      then and_then (t u) (λ w r. returned m.unit_value r)
      else returned m.unit_value u)

  -- Both arms run, and the value of one is taken.
  unfoldable pub run_select : Run S V → Run S V → Run S V → Run S V
  run_select c t e s = and_then (c s) (λ v u.
      and_then (t u) (λ x r. and_then (e r) (λ y q. returned (if m.is_true v then x else y) q)))

  -- A form of another length, which the emitter refuses, counts as an operator.
  unfoldable pub run_if : IfLowering → List (Run S V) → Run S V
  run_if by_branch (c ∷ t ∷ []) = run_when c t
  run_if by_branch (c ∷ t ∷ e ∷ []) = run_branch c t e
  run_if by_select (c ∷ t ∷ e ∷ []) = run_select c t e
  run_if low rs = run_operands rs (λ vs s. returned (m.operate (codes "if") vs) s)

  abbrev pub run_operation : Bool → Bytes → List V → Run S V
  run_operation true op vs s = quotient (m.divide op vs) s
  run_operation false op vs s = returned (m.operate op vs) s

  unfoldable pub run_form : Form → IfLowering → Node → List (Run S V) → Run S V
  run_form an_if low n rs = run_if low rs
  run_form negation low n rs = run_operands rs (λ vs s. returned (m.operate (codes "xor") vs) s)
  run_form (connective op) low n rs = run_operands rs (λ vs s. returned (m.operate op vs) s)
  run_form (comparison op f) low n rs = run_operands rs (λ vs s. returned (m.operate op vs) s)
  run_form (operation op f) low n rs =
      run_operands rs (λ vs s. run_operation (opcode_traps op) op vs s)
  run_form another low n rs = m.other n rs

  unfoldable mutual
    pub run : (Nodes → IfLowering) → Node → Run S V
    run low (node number l t cs) s = returned (m.atom (node number l t cs) s) s
    run low (node string l t cs) s = returned (m.atom (node string l t cs) s) s
    run low (node symbol l t cs) s = returned (m.atom (node symbol l t cs) s) s
    run low (node list l t (cons (node symbol k h c) args)) s =
        run_form (form_of h) (low args) (node list l t (cons (node symbol k h c) args))
          (run_all low args) s
    run low n s = m.other n [] s

    pub run_all : (Nodes → IfLowering) → Nodes → List (Run S V)
    run_all low nil = []
    run_all low (cons n ns) = run low n ∷ run_all low ns

-- The reference: of the arms of an `if` only one ever runs.
unfoldable pub one_arm : Nodes → IfLowering
one_arm (cons c (cons t nil)) = by_branch
one_arm (cons c (cons t (cons e nil))) = by_branch
one_arm _ = malformed
