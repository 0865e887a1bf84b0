-- ===== src/Sugar.antt =====
-- src/ast_sugar.h: the rewrites of `cond`, `case`, `dotimes` and the other sugar, run on a body
-- before emission. `none` is an `*out_error`, of which there is one. The children are rewritten in
-- place there; a rewritten tree shares nodes that no later step writes to.
pub mod Forms
pub mod Core
pub mod Free
pub mod Branches
pub mod Expand
pub mod Whole
pub mod Tests
use parena.Prelude.{ℕ, Bool, true, false, ◌&&◌, ◌||◌, Option, none, some, ◌==◌, if◌then◌else◌}
use parena.Ast.{Node, Nodes, node, nil, cons, NodeType, list, vec, map, symbol, type_code}
use parena.Sugar.Forms.{expand_form}

abbrev pub is_compound : NodeType → Bool
is_compound t = type_code t == 0 || type_code t == 1 || type_code t == 2

-- A rewrite that succeeds goes on, with the count of temporaries.
abbrev pub and_then {ℓ κ} :
    {A : Type ℓ} {B : Type κ} → Option (A × ℕ) → (A → ℕ → Option (B × ℕ)) → Option (B × ℕ)
and_then none f = none
and_then (some (a, k)) f = f a k

-- The rewrite of a node whose children have been rewritten.
unfoldable pub expand : Bool → NodeType → ℕ → Node → Nodes → ℕ → Option (Node × ℕ)
expand skip list line n (cons (node symbol l h c) args) k = expand_form skip n h args line k
expand skip t line n cs k = some (n, k)

unfoldable mutual
  pub ast_sugar : Bool → Node → ℕ → Option (Node × ℕ)
  ast_sugar skip (node t line text cs) k =
      let more = sugar_children skip cs k in
      if is_compound t
      then and_then more (λ ds k'. expand skip t line (node t line text ds) ds k')
      else some (node t line text cs, k)

  pub sugar_children : Bool → Nodes → ℕ → Option (Nodes × ℕ)
  sugar_children skip nil k = some (nil, k)
  sugar_children skip (cons n ns) k =
      and_then (ast_sugar skip n k)
        (λ m k'. and_then (sugar_children skip ns k') (λ ms k''. some (cons m ms, k'')))
