-- ===== src/Java/Accepts.antt =====
-- src/emit_java.c: the expressions that the emitter takes, told apart by their shape alone.
use parena.Prelude.{
  ℕ, ◌≡◌, Bool, true, Option, none, some, ◌==◌, if◌then◌else◌, Bytes, codes, strcmp_eq,
}
use parena.Ast.{Node, Nodes, node, nil, cons, list, symbol, number, count}
use parena.Java.Text.{find_binop, find_math_prim}

abbrev pub takes_named : ℕ → Option (Bytes × ℕ) → Bool
takes_named n (some prim) = n == prim.1
takes_named n none = true

abbrev pub takes_other : Bytes → ℕ → Option Bytes → Bool
takes_other h n (some op) = n == 2
takes_other h n none = takes_named n (find_math_prim h)

-- The counts of arguments that a form takes.
abbrev pub takes : Bytes → ℕ → Bool
takes h n =
    if strcmp_eq h (codes "if")
    then n == 3
    else if strcmp_eq h (codes "not")
    then n == 1
    else takes_other h n (find_binop h)

-- Expressions of the subset: numbers, symbols, and forms whose head takes so many arguments.
mutual
  pub data IsJava : Node → Type 0 where
    a_number : (l : ℕ) (s : Bytes) (cs : Nodes) → IsJava (node number l s cs)
    a_symbol : (l : ℕ) (s : Bytes) (cs : Nodes) → IsJava (node symbol l s cs)
    a_form :
        (l : ℕ) (s : Bytes) (m : ℕ) (h : Bytes) (c args : Nodes)
        → takes h (count args) ≡ true
        → AllJava args
        → IsJava (node list l s (cons (node symbol m h c) args))

  pub data AllJava : Nodes → Type 0 where
    no_more : AllJava nil
    one_more : {n : Node} {ns : Nodes} → IsJava n → AllJava ns → AllJava (cons n ns)
