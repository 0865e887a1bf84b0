-- ===== src/Ast/Children/Tests.antt =====
-- Runs of `node_push_child`.
use parena.Prelude.{ℕ, suc, ◌≡◌, ◌++◌, [], ◌∷◌, arith, refl, take}
use parena.Ast.Children.{
  ChildArray, node_push_child, with_room, grown_capacity, slots_for, copy_children, IsChildArray,
  node_push_child-IsChildArray,
}

-- An array of four that is full.
abbrev full : ChildArray ℕ
full = record { children = 1 ∷ 2 ∷ 3 ∷ 4 ∷ []; child_count = 4; child_capacity = 4 }

full_grows :
    node_push_child 0 full 5
    ≡ record { children = 1 ∷ 2 ∷ 3 ∷ 4 ∷ 5 ∷ 0 ∷ 0 ∷ 0 ∷ []; child_count = 5; child_capacity = 8 }
unfolding node_push_child with_room grown_capacity slots_for copy_children
full_grows = refl

full-IsChildArray : IsChildArray full
full-IsChildArray = record { in_use = omega arith; slots = refl }

node_push_child-IsChildArray_example :
    IsChildArray (node_push_child 0 full 5)
    × (take (suc 4) (ChildArray.children (node_push_child 0 full 5))
        ≡ take 4 (ChildArray.children full) ++ (5 ∷ []))
    × (ChildArray.child_count (node_push_child 0 full 5) ≡ suc 4)
node_push_child-IsChildArray_example =
    node_push_child-IsChildArray 0 full 5 full-IsChildArray (omega arith)
