-- ===== src/Llvm/Tests.antt =====
-- src/emit_llvm.c: an `if` that guards a division.
use parena.Prelude.{
  ℕ, true, ◌≡◌, refl, List, [], ◌∷◌, Option, none, some, ◌-◌, ◌==◌, leb, if◌then◌else◌, Bytes,
  codes, c_str, bytes_eq, strcmp_eq,
}
use parena.Ast.{Node, node, nil, cons, list, symbol, number}
use parena.Lua.Names.{find_entry}
use parena.Llvm.Speculation.{
  by_select, expr_is_speculable, is_arith_or_cmp_head, head_may_trap, if_lowering,
}
use parena.Llvm.Dispatch.{form_of, opcode_traps}
use parena.Llvm.Run.{
  Machine, Run, Outcome, trapped, returned, and_then, run_operands, run_branch, run_select, run_if,
  run_form, run, one_arm,
}
use parena.Llvm.Pure.{expr_is_speculable-IsPure}
use parena.Llvm.Same.{run-if_lowering}

-- The state is the value of the one variable; a comparison asks whether it is 0.
abbrev atom_value : Node → ℕ → ℕ
atom_value (node symbol l t cs) s = s
atom_value n s = 8

abbrev divided : Bytes → List ℕ → Option ℕ
divided h (a ∷ b ∷ []) = if b == 0 then none else some (a - b)
divided h vs = none

abbrev compared : Bytes → List ℕ → ℕ
compared h (a ∷ vs) = if a == 0 then 1 else 0
compared h [] = 0

abbrev called : Node → List (ℕ → Outcome ℕ ℕ) → Run ℕ ℕ
called n rs s = returned 0 (s - 1)

abbrev machine : Machine ℕ ℕ
machine = record {
  atom = atom_value;
  is_true = λ v. leb 1 v;
  unit_value = 0;
  operate = compared;
  divide = divided;
  other = called;
}

abbrev word : Bytes → Node
word s = node symbol 1 s nil

abbrev eight : Node
eight = node number 1 (codes "8") nil

-- (<= b 8)
abbrev test : Node
test = node list 1 [] (cons (word (codes "<=")) (cons (word (codes "b")) (cons eight nil)))

-- (/ 8 b)
abbrev division : Node
division = node list 1 [] (cons (word (codes "/")) (cons eight (cons (word (codes "b")) nil)))

-- (if (<= b 8) 8 (/ 8 b))
abbrev guarded : Node
guarded = node list 1 [] (cons (word (codes "if")) (cons test (cons eight (cons division nil))))

-- (if (<= b 8) 8 b)
abbrev chosen : Node
chosen =
    node list 1 [] (cons (word (codes "if")) (cons test (cons eight (cons (word (codes "b")) nil))))

guarded_value : run machine if_lowering guarded 0 ≡ returned 8 0
unfolding run form_of opcode_traps run_form run_if run_branch run_operands and_then if_lowering
    expr_is_speculable is_arith_or_cmp_head head_may_trap find_entry strcmp_eq c_str bytes_eq
guarded_value = refl

-- A `select` there would divide by 0.
guarded_select : run machine (λ args. by_select) guarded 0 ≡ trapped
unfolding run run_form run_if run_select run_operands and_then form_of opcode_traps find_entry
    strcmp_eq c_str bytes_eq
guarded_select = refl

chosen_lowering : if_lowering (cons test (cons eight (cons (word (codes "b")) nil))) ≡ by_select
unfolding if_lowering expr_is_speculable
chosen_lowering = refl

chosen-speculable : expr_is_speculable chosen ≡ true
unfolding expr_is_speculable is_arith_or_cmp_head head_may_trap find_entry strcmp_eq c_str bytes_eq
chosen-speculable = refl

run-if_lowering_example : run machine if_lowering guarded 0 ≡ run machine one_arm guarded 0
run-if_lowering_example = run-if_lowering machine guarded 0

expr_is_speculable-IsPure_example : (v : ℕ) × (run machine if_lowering chosen 3 ≡ returned v 3)
expr_is_speculable-IsPure_example =
    expr_is_speculable-IsPure machine if_lowering chosen chosen-speculable 3
