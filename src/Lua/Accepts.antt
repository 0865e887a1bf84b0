-- ===== src/Lua/Accepts.antt =====
-- src/emit_lua.c: the expressions that the emitter takes, told apart by their shape alone.
use parena.Prelude.{
  ℕ, ◌%◌, ◌≡◌, Bool, true, false, not, ◌&&◌, ◌||◌, Option, none, some, ltb, ◌==◌, if◌then◌else◌,
  Bytes, codes, strcmp_eq,
}
use parena.Ast.{Node, Nodes, node, nil, cons, list, vec, symbol, number, string, has_type, count}
use parena.Lua.Names.{find_binop, find_math_prim}
use parena.Lua.Text.{has_name, statement_forms, comparison_ops}

-- The counts of operands that an operator takes.
abbrev pub takes_operands : Bytes → ℕ → Bool
takes_operands h n =
    if n == 0
    then false
    else if n == 1
    then not (strcmp_eq h (codes "-"))
    else not (ltb 2 n && has_name comparison_ops h)

abbrev pub takes_named : ℕ → Option (Bytes × ℕ) → Bool
takes_named n (some prim) = n == prim.1
takes_named n none = true

abbrev pub takes_other : Bytes → ℕ → Option Bytes → Bool
takes_other h n (some op) = takes_operands h n
takes_other h n none = takes_named n (find_math_prim h)

-- The counts of arguments that a form takes, other than `let`.
abbrev pub takes : Bytes → ℕ → Bool
takes h n =
    if strcmp_eq h (codes "if")
    then n == 3
    else if strcmp_eq h (codes "not")
    then n == 1
    else if has_name statement_forms h
    then false
    else takes_other h n (find_binop h)

-- Expressions of the subset: numbers, strings, symbols, `let`, and forms whose head takes so many
-- arguments and which are no statement.
mutual
  pub data IsLua : Node → Type 0 where
    a_number : (l : ℕ) (s : Bytes) (cs : Nodes) → IsLua (node number l s cs)
    a_string : (l : ℕ) (s : Bytes) (cs : Nodes) → IsLua (node string l s cs)
    a_symbol : (l : ℕ) (s : Bytes) (cs : Nodes) → IsLua (node symbol l s cs)
    a_let :
        (l : ℕ) (s : Bytes) (m : ℕ) (h : Bytes) (c : Nodes) (vl : ℕ) (vs : Bytes) (bs : Nodes)
        (body : Node)
        → strcmp_eq h (codes "let") ≡ true
        → strcmp_eq h (codes "if") ≡ false
        → strcmp_eq h (codes "not") ≡ false
        → (count bs % 2 == 0) ≡ true
        → AreBindings bs
        → IsLua body
        → IsLua
            (node list l s (cons (node symbol m h c) (cons (node vec vl vs bs) (cons body nil))))
    a_form :
        (l : ℕ) (s : Bytes) (m : ℕ) (h : Bytes) (c : Nodes) (args : Nodes)
        → takes h (count args) ≡ true
        → (strcmp_eq h (codes "if")
            || (strcmp_eq h (codes "not") || not (strcmp_eq h (codes "let"))))
          ≡ true
        → AllLua args
        → IsLua (node list l s (cons (node symbol m h c) args))

  pub data AllLua : Nodes → Type 0 where
    no_more : AllLua nil
    one_more : {n : Node} {ns : Nodes} → IsLua n → AllLua ns → AllLua (cons n ns)

  pub data AreBindings : Nodes → Type 0 where
    no_pair : AreBindings nil
    half : (n : Node) → AreBindings (cons n nil)
    pair :
        {n e : Node} {rest : Nodes}
        → has_type n symbol ≡ true
        → IsLua e
        → AreBindings rest
        → AreBindings (cons n (cons e rest))
