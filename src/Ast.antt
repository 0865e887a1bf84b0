-- ===== src/Ast.antt =====
-- src/ast.h and src/ast.c: the generic S-expression tree. A node has the fields of the struct; the
-- child array is a list, its doubling growth stands in Ast/Children.
pub mod Children
use parena.Prelude.{ℕ, ◌+◌, ◌≡◌, refl, Bool, [], arith, ◌==◌, Bytes}

pub data NodeType : Type 0 where
  list vec map symbol keyword string number colon at : NodeType

-- node type line text children
mutual
  pub data Node : Type 0 where
    node : NodeType → ℕ → Bytes → Nodes → Node

  pub data Nodes : Type 0 where
    nil : Nodes
    cons : Node → Nodes → Nodes

abbrev pub type_of : Node → NodeType
type_of (node t l s c) = t

abbrev pub line_of : Node → ℕ
line_of (node t l s c) = l

abbrev pub text_of : Node → Bytes
text_of (node t l s c) = s

abbrev pub children_of : Node → Nodes
children_of (node t l s c) = c

unfoldable pub node_new_atom : NodeType → Bytes → ℕ → Node
node_new_atom t text line = node t line text nil

unfoldable pub node_new_compound : NodeType → ℕ → Nodes → Node
node_new_compound t line children = node t line [] children

-- The position of a type in the enumeration: C compares enumerators as these numbers.
abbrev pub type_code : NodeType → ℕ
type_code list = 0
type_code vec = 1
type_code map = 2
type_code symbol = 3
type_code keyword = 4
type_code string = 5
type_code number = 6
type_code colon = 7
type_code at = 8

abbrev pub has_type : Node → NodeType → Bool
has_type n t = type_code (type_of n) == type_code t

abbrev pub append : Nodes → Nodes → Nodes
append nil ys = ys
append (cons x xs) ys = cons x (append xs ys)

abbrev pub count : Nodes → ℕ
count nil = 0
count (cons x xs) = count xs + 1
