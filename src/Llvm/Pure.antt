-- ===== src/Llvm/Pure.antt =====
-- src/emit_llvm.c: an expression that passes `expr_is_speculable` may be evaluated for nothing.
use parena.Prelude.{
  Bool, true, false, not, ◌&&◌, ◌≡◌, refl, if◌then◌else◌, List, [], ◌∷◌, codes, arith, Bool-cases,
  inl, inr,
}
use parena.Ast.{Node, Nodes, node, nil, cons, list, symbol, string, number}
use parena.Llvm.Speculation.{
  IfLowering, by_branch, by_select, expr_is_speculable, all_speculable, is_arith_or_cmp_head,
  head_may_trap,
}
use parena.Llvm.Dispatch.{
  Form, an_if, negation, connective, another, comparison, operation, form_of, IsTotal,
  form_of-IsTotal,
}
use parena.Llvm.Run.{
  Machine, Run, returned, and_then, run_operands, run_branch, run_when, run_select, run_if,
  run_form, run, run_all,
}

-- The run gives a value whatever the state, and leaves the state as it was.
abbrev pub IsPure : {S V : Type 0} → Run S V → Type 0
IsPure {S} {V} r = (s : S) → (v : V) × (r s ≡ returned v s)

abbrev pub AllPure : {S V : Type 0} → List (Run S V) → Type 0
AllPure [] = Unit
AllPure (r ∷ rs) = IsPure r × AllPure rs

pub and-true : (a b : Bool) → (a && b) ≡ true → (a ≡ true) × (b ≡ true)
and-true a b h = ground arith

not-true : (a : Bool) → not a ≡ true → a ≡ false
not-true a h = ground arith

run_operands-IsPure :
    {S V : Type 0} (rs : List (Run S V)) (f : List V → V)
    → AllPure rs
    → IsPure (run_operands rs (λ vs s. returned (f vs) s))
unfolding run_operands and_then
run_operands-IsPure [] f p s = (f [], refl)
run_operands-IsPure (r ∷ rs) f p s =
    let (v, e) = p.0 s in
    let (w, d) = run_operands-IsPure rs (λ vs. f (v ∷ vs)) p.1 s in (w, rw e d)

module _ {S V : Type 0} (m : Machine S V) where
  run_branch-IsPure :
      (c t e : Run S V) → IsPure c → IsPure t → IsPure e → IsPure (run_branch m c t e)
  unfolding run_branch and_then
  run_branch-IsPure c t e p q r s =
      let (v, h) = p s in
      elim (Bool-cases (m.is_true v)) [
        | inl i ↦ let (w, k) = q s in (w, rw (h, i) k)
        | inr i ↦ let (w, k) = r s in (w, rw (h, i) k)
      ]

  run_when-IsPure : (c t : Run S V) → IsPure c → IsPure t → IsPure (run_when m c t)
  unfolding run_when and_then
  run_when-IsPure c t p q s =
      let (v, h) = p s in
      let (w, k) = q s in
      elim (Bool-cases (m.is_true v)) [
        | inl i ↦ (m.unit_value, rw (h, i, k) refl)
        | inr i ↦ (m.unit_value, rw (h, i) refl)
      ]

  run_select-IsPure :
      (c t e : Run S V) → IsPure c → IsPure t → IsPure e → IsPure (run_select m c t e)
  unfolding run_select and_then
  run_select-IsPure c t e p q r s =
      let (v, h) = p s in
      let (x, k) = q s in let (y, l) = r s in (if m.is_true v then x else y, rw (h, k, l) refl)

  run_if-IsPure : (low : IfLowering) (rs : List (Run S V)) → AllPure rs → IsPure (run_if m low rs)
  unfolding run_if
  run_if-IsPure by_branch (c ∷ t ∷ []) p = run_when-IsPure c t p.0 p.1.0
  run_if-IsPure by_branch (c ∷ t ∷ e ∷ []) p = run_branch-IsPure c t e p.0 p.1.0 p.1.1.0
  run_if-IsPure by_select (c ∷ t ∷ e ∷ []) p = run_select-IsPure c t e p.0 p.1.0 p.1.1.0
  run_if-IsPure low rs p = run_operands-IsPure rs (m.operate (codes "if")) p

  run_form-IsPure :
      (f : Form) (low : IfLowering) (n : Node) (rs : List (Run S V))
      → IsTotal f
      → AllPure rs
      → IsPure (run_form m f low n rs)
  unfolding run_form
  run_form-IsPure an_if low n rs t p = run_if-IsPure low rs p
  run_form-IsPure negation low n rs t p = run_operands-IsPure rs (m.operate (codes "xor")) p
  run_form-IsPure (connective op) low n rs t p = run_operands-IsPure rs (m.operate op) p
  run_form-IsPure another low n rs t p = absurd t
  run_form-IsPure (comparison op f) low n rs t p = run_operands-IsPure rs (m.operate op) p
  run_form-IsPure (operation op f) low n rs t p = rw t (run_operands-IsPure rs (m.operate op) p)

  mutual
    unfolding run expr_is_speculable

    run-IsPure :
        (low : Nodes → IfLowering) (n : Node) → expr_is_speculable n ≡ true → IsPure (run m low n)
    run-IsPure low (node number l t cs) h s = (m.atom (node number l t cs) s, refl)
    run-IsPure low (node string l t cs) h s = (m.atom (node string l t cs) s, refl)
    run-IsPure low (node symbol l t cs) h s = (m.atom (node symbol l t cs) s, refl)
    run-IsPure low (node list l t (cons (node symbol k g c) args)) h s =
        let (a, b) = and-true (is_arith_or_cmp_head g) _ h in
        let (d, e) = and-true (not (head_may_trap g)) (all_speculable args) b in
        run_form-IsPure (form_of g) (low args) (node list l t (cons (node symbol k g c) args))
          (run_all m low args) (form_of-IsTotal g a (not-true (head_may_trap g) d))
          (run_all-AllPure low args e) s
    run-IsPure low n h s = absurd (ground arith)

    run_all-AllPure :
        (low : Nodes → IfLowering) (ns : Nodes)
        → all_speculable ns ≡ true
        → AllPure (run_all m low ns)
    run_all-AllPure low nil h = tt
    run_all-AllPure low (cons n ns) h =
        let (a, b) = and-true (expr_is_speculable n) (all_speculable ns) h in
        (run-IsPure low n a, run_all-AllPure low ns b)

  -- An expression that may be evaluated for nothing gives a value in every state, without a trap,
  -- and leaves the state as it was, whatever the instructions compute and however each `if` in it
  -- is lowered.
  pub expr_is_speculable-IsPure :
      (low : Nodes → IfLowering) (n : Node)
      → expr_is_speculable n ≡ true
      → (s : S) → (v : V) × (run m low n s ≡ returned v s)
  expr_is_speculable-IsPure low n h = run-IsPure low n h
