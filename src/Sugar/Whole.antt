-- ===== src/Sugar/Whole.antt =====
-- src/ast_sugar.h: what a run of `ast_sugar` leaves behind.
use parena.Prelude.{ℕ, ◌≡◌, refl, Bool, false, Bytes, Option, none, some, ◌↔◌}
use parena.Ast.{Node, Nodes, node, nil, cons, NodeType, list, vec, map, symbol}
use parena.Sugar.{and_then, expand, ast_sugar, sugar_children}
use parena.Sugar.Core.{is_sugar_node, IsCore, AllCore}
use parena.Sugar.Free.{Free}
use parena.Sugar.Expand.{expand_form-Free, expand_form-same}

abbrev AllFree : Bool → Option (Nodes × ℕ) → Type 0
AllFree skip none = Unit
AllFree skip (some (ns, k)) = AllCore skip ns

expand-Free :
    (skip : Bool) (t : NodeType) (line : ℕ) (text : Bytes) (ds : Nodes) (k : ℕ)
    → AllCore skip ds
    → Free skip (expand skip t line (node t line text ds) ds k)
unfolding expand
expand-Free skip list line text (cons (node symbol l h c) args) k hd =
    expand_form-Free skip (node list line text (cons (node symbol l h c) args)) h args line k hd.1
      (λ e. (e, hd))
expand-Free skip list line text ds k hd = (refl, hd)
expand-Free skip vec line text ds k hd = hd
expand-Free skip map line text ds k hd = hd
expand-Free skip t line text ds k hd = tt

and_then-Free :
    (skip : Bool) (t : NodeType) (line : ℕ) (text : Bytes) (r : Option (Nodes × ℕ))
    → AllFree skip r
    → Free skip (and_then r (λ ds k'. expand skip t line (node t line text ds) ds k'))
and_then-Free skip t line text none h = tt
and_then-Free skip t line text (some (ds, k)) h = expand-Free skip t line text ds k h

snoc_one :
    (skip : Bool) (m : Node) (r : Option (Nodes × ℕ))
    → IsCore skip m
    → AllFree skip r
    → AllFree skip (and_then r (λ ms k. some (cons m ms, k)))
snoc_one skip m none hm h = tt
snoc_one skip m (some (ms, k)) hm h = (hm, h)

first_then_rest :
    (skip : Bool) (ns : Nodes) (r : Option (Node × ℕ))
    → Free skip r
    → ((k : ℕ) → AllFree skip (sugar_children skip ns k))
    → AllFree skip
        (and_then r (λ m k. and_then (sugar_children skip ns k) (λ ms k'. some (cons m ms, k'))))
first_then_rest skip ns none h hs = tt
first_then_rest skip ns (some (m, k)) h hs = snoc_one skip m (sugar_children skip ns k) h (hs k)

mutual
  unfolding ast_sugar

  free : (skip : Bool) (n : Node) (k : ℕ) → Free skip (ast_sugar skip n k)
  free skip (node list l s cs) k =
      and_then-Free skip list l s (sugar_children skip cs k) (all_free skip cs k)
  free skip (node vec l s cs) k =
      and_then-Free skip vec l s (sugar_children skip cs k) (all_free skip cs k)
  free skip (node map l s cs) k =
      and_then-Free skip map l s (sugar_children skip cs k) (all_free skip cs k)
  free skip (node t l s cs) k = tt

  all_free : (skip : Bool) (ns : Nodes) (k : ℕ) → AllFree skip (sugar_children skip ns k)
  all_free skip nil k = tt
  all_free skip (cons n ns) k =
      first_then_rest skip ns (ast_sugar skip n k) (free skip n k) (all_free skip ns)

-- A tree that the rewrites hand back has no sugar left, at any depth.
pub ast_sugar-IsCore :
    (skip : Bool) (n : Node) (k : ℕ) {m : Node} {k' : ℕ}
    → ast_sugar skip n k ≡ some (m, k')
    → IsCore skip m
ast_sugar-IsCore skip n k e = rw e at (free skip n k)

expand-same :
    (skip : Bool) (t : NodeType) (line : ℕ) (text : Bytes) (ds : Nodes) (k : ℕ)
    → is_sugar_node skip t ds ≡ false
    → expand skip t line (node t line text ds) ds k ≡ some (node t line text ds, k)
unfolding expand
expand-same skip list line text (cons (node symbol l h c) args) k e =
    expand_form-same skip (node list line text (cons (node symbol l h c) args)) h args line k e
expand-same skip t line text ds k e = refl

children_then :
    (skip : Bool) (t : NodeType) (line : ℕ) (text : Bytes) (cs : Nodes) (k : ℕ)
    → is_sugar_node skip t cs ≡ false
    → sugar_children skip cs k ≡ some (cs, k)
    → and_then (sugar_children skip cs k) (λ ds k'. expand skip t line (node t line text ds) ds k')
      ≡ some (node t line text cs, k)
children_then skip t line text cs k h e = rw e (expand-same skip t line text cs k h)

mutual
  unfolding ast_sugar

  same : (skip : Bool) (n : Node) (k : ℕ) → IsCore skip n → ast_sugar skip n k ≡ some (n, k)
  same skip (node list l s cs) k h = children_then skip list l s cs k h.0 (all_same skip cs k h.1)
  same skip (node vec l s cs) k h = children_then skip vec l s cs k refl (all_same skip cs k h)
  same skip (node map l s cs) k h = children_then skip map l s cs k refl (all_same skip cs k h)
  same skip (node t l s cs) k h = refl

  all_same :
      (skip : Bool) (ns : Nodes) (k : ℕ) → AllCore skip ns → sugar_children skip ns k ≡ some (ns, k)
  all_same skip nil k h = refl
  all_same skip (cons n ns) k h = rw (same skip n k h.0, all_same skip ns k h.1) refl

-- The rewrites leave a tree as it is, and take no temporary, exactly if it has no sugar.
pub ast_sugar-same_iff :
    (skip : Bool) (n : Node) (k : ℕ) → (ast_sugar skip n k ≡ some (n, k)) ↔ IsCore skip n
ast_sugar-same_iff skip n k = (λ e. ast_sugar-IsCore skip n k e, same skip n k)

-- What has been rewritten is rewritten to itself, whatever the count of temporaries then is.
pub ast_sugar_idem :
    (skip : Bool) (n : Node) (k : ℕ) {m : Node} {k' : ℕ} (j : ℕ)
    → ast_sugar skip n k ≡ some (m, k')
    → ast_sugar skip m j ≡ some (m, j)
ast_sugar_idem skip n k {m = m} j e = same skip m j (ast_sugar-IsCore skip n k e)
