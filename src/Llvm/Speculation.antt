-- ===== src/Llvm/Speculation.antt =====
-- src/emit_llvm.c: the tables of operators, the test for an expression that may be evaluated though
-- its value is thrown away, and the choice that `if` makes by it.
use parena.Prelude.{
  Bool, true, false, not, ◌&&◌, ◌||◌, List, [], ◌∷◌, Option, none, some, if◌then◌else◌, Bytes,
  codes, strcmp_eq,
}
use parena.Ast.{Node, Nodes, node, nil, cons, list, symbol, string, number}
use parena.Lua.Names.{find_entry}

-- ARITH_TABLE: the opcode on i32, and on a float where there is one.
abbrev pub arith_table : List (Bytes × (Bytes × Option Bytes))
arith_table =
    (codes "+", (codes "add", some (codes "fadd")))
    ∷ (codes "-", (codes "sub", some (codes "fsub")))
    ∷ (codes "*", (codes "mul", some (codes "fmul")))
    ∷ (codes "/", (codes "sdiv", some (codes "fdiv")))
    ∷ (codes "mod", (codes "srem", some (codes "frem")))
    ∷ (codes "bit-and", (codes "and", none))
    ∷ (codes "bit-or", (codes "or", none))
    ∷ (codes "bit-xor", (codes "xor", none))
    ∷ (codes "shl", (codes "shl", none))
    ∷ (codes "shr", (codes "ashr", none))
    ∷ (codes "ushr", (codes "lshr", none))
    ∷ []

-- CMP_TABLE: the condition codes of icmp and of fcmp.
abbrev pub cmp_table : List (Bytes × (Bytes × Bytes))
cmp_table =
    (codes "=", (codes "eq", codes "oeq"))
    ∷ (codes "<", (codes "slt", codes "olt"))
    ∷ (codes ">", (codes "sgt", codes "ogt"))
    ∷ (codes "<=", (codes "sle", codes "ole"))
    ∷ (codes ">=", (codes "sge", codes "oge"))
    ∷ (codes "!=", (codes "ne", codes "one"))
    ∷ []

abbrev pub find_arith : Bytes → Option (Bytes × Option Bytes)
find_arith prn_op = find_entry arith_table prn_op

abbrev pub find_cmp : Bytes → Option (Bytes × Bytes)
find_cmp prn_op = find_entry cmp_table prn_op

abbrev pub is_found : {A : Type 0} → Option A → Bool
is_found none = false
is_found (some x) = true

unfoldable pub is_arith_or_cmp_head : Bytes → Bool
is_arith_or_cmp_head h =
    is_found (find_arith h)
    || (is_found (find_cmp h)
        || (strcmp_eq h (codes "not")
            || (strcmp_eq h (codes "and")
                || (strcmp_eq h (codes "or") || strcmp_eq h (codes "if")))))

unfoldable pub head_may_trap : Bytes → Bool
head_may_trap h = strcmp_eq h (codes "/") || strcmp_eq h (codes "mod")

-- A null pointer, which the C code accepts, is no node here.
unfoldable mutual
  pub expr_is_speculable : Node → Bool
  expr_is_speculable (node number l s cs) = true
  expr_is_speculable (node string l s cs) = true
  expr_is_speculable (node symbol l s cs) = true
  expr_is_speculable (node list l s (cons (node symbol m h c) args)) =
      is_arith_or_cmp_head h && (not (head_may_trap h) && all_speculable args)
  expr_is_speculable n = false

  pub all_speculable : Nodes → Bool
  all_speculable nil = true
  all_speculable (cons n ns) = expr_is_speculable n && all_speculable ns

-- What becomes of an `if`: blocks of which one runs, a `select` of two values, or an error.
pub data IfLowering : Type 0 where
  by_branch by_select malformed : IfLowering

-- From the forms behind `if`.
unfoldable pub if_lowering : Nodes → IfLowering
if_lowering (cons c (cons t nil)) = by_branch
if_lowering (cons c (cons t (cons e nil))) =
    if expr_is_speculable t && expr_is_speculable e then by_select else by_branch
if_lowering _ = malformed
