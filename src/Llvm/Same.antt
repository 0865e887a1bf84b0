-- ===== src/Llvm/Same.antt =====
-- src/emit_llvm.c: a `select` in place of the blocks of an `if` changes nothing that the program does.
use parena.Prelude.{◌≡◌, refl, ◌&&◌, Bool-cases, inl, inr}
use parena.Ast.{Node, Nodes, node, nil, cons, list, symbol, string, number}
use mathlib.Core.Path.{fun_ext}
use parena.Llvm.Speculation.{expr_is_speculable, if_lowering}
use parena.Llvm.Dispatch.{Form, an_if, form_of}
use parena.Llvm.Run.{
  Machine, Outcome, Run, trapped, returned, and_then, run_branch, run_select, run_if, run_form, run,
  run_all, one_arm,
}
use parena.Llvm.Pure.{IsPure, and-true, expr_is_speculable-IsPure}

and_then_ap :
    {S V : Type 0} (o : Outcome S V) {f g : V → Run S V}
    → ((v : V) (s : S) → f v s ≡ g v s)
    → and_then o f ≡ and_then o g
unfolding and_then
and_then_ap trapped h = refl
and_then_ap (returned v s) h = h v s

module _ {S V : Type 0} (m : Machine S V) where
  run_select-run_branch :
      (c t e : Run S V)
      → IsPure t
      → IsPure e
      → (s : S) → run_select m c t e s ≡ run_branch m c t e s
  unfolding run_select run_branch and_then
  run_select-run_branch c t e p q s = and_then_ap (c s) (λ v u.
      let (x, h) = p u in
      let (y, k) = q u in
      elim (Bool-cases (m.is_true v)) [ inl i ↦ rw (i, h, k) refl | inr i ↦ rw (i, h, k) refl ])

  run_if-one_arm :
      (args : Nodes) (s : S)
      → run_if m (if_lowering args) (run_all m one_arm args) s
        ≡ run_if m (one_arm args) (run_all m one_arm args) s
  unfolding if_lowering one_arm run run_if
  run_if-one_arm nil s = refl
  run_if-one_arm (cons a nil) s = refl
  run_if-one_arm (cons a (cons b nil)) s = refl
  run_if-one_arm (cons c (cons t (cons e nil))) s =
      elim (Bool-cases (expr_is_speculable t && expr_is_speculable e)) [
        | inl h ↦
            let (p, q) = and-true (expr_is_speculable t) (expr_is_speculable e) h in
            rw h (
              run_select-run_branch (run m one_arm c) (run m one_arm t) (run m one_arm e)
                (expr_is_speculable-IsPure m one_arm t p) (expr_is_speculable-IsPure m one_arm e q)
                s)
        | inr h ↦ rw h refl
      ]
  run_if-one_arm (cons a (cons b (cons c (cons d args)))) s = refl

  run_form-one_arm :
      (f : Form) (n : Node) (args : Nodes) (s : S)
      → run_form m f (if_lowering args) n (run_all m one_arm args) s
        ≡ run_form m f (one_arm args) n (run_all m one_arm args) s
  unfolding run_form
  run_form-one_arm an_if n args s = run_if-one_arm args s
  run_form-one_arm f n args s = refl

  mutual
    unfolding run

    same_run : (n : Node) (s : S) → run m if_lowering n s ≡ run m one_arm n s
    same_run (node number l t cs) s = refl
    same_run (node string l t cs) s = refl
    same_run (node symbol l t cs) s = refl
    same_run (node list l t (cons (node symbol k h c) args)) s =
        rw (same_run_all args)
          (run_form-one_arm (form_of h) (node list l t (cons (node symbol k h c) args)) args s)
    same_run n s = refl

    same_run_all : (ns : Nodes) → run_all m if_lowering ns ≡ run_all m one_arm ns
    same_run_all nil = refl
    same_run_all (cons n ns) = rw (fun_ext (same_run n), same_run_all ns) refl

  -- With the lowering of the emitter an expression does what it does when of the arms of each `if`
  -- only one runs: it ends in the same trap, or with the same value and the same state, whatever the
  -- instructions compute.
  pub run-if_lowering : (n : Node) (s : S) → run m if_lowering n s ≡ run m one_arm n s
  run-if_lowering n s = same_run n s
