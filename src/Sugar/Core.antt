-- ===== src/Sugar/Core.antt =====
-- src/ast_sugar.h: which trees are free of sugar, told apart without the rewrites, and the lemmas on
-- them that the rewrites need.
use parena.Prelude.{
  ◌≡◌, refl, Bool, true, false, not, ◌&&◌, ◌||◌, [], ◌∷◌, ltb, ◌==◌, Bytes, codes, Bool-cases,
  strcmp_eq, c_str, bytes_eq, ap, ◌∙◌, inl, inr, ==_iff, arith,
}
use parena.Ast.{Node, Nodes, node, nil, cons, NodeType, list, vec, map, symbol, count}
use parena.Sugar.Forms.{is_fold_op, is_named, is_step, is_update, is_counter}

abbrev pub is_sugar : Bool → Bytes → Nodes → Bool
is_sugar skip h args =
    is_fold_op h && ltb 2 (count args)
    || (is_named h args (codes "unless") 1
        || (is_step h args
            || (is_update h args
                || (strcmp_eq h (codes "cond") && not skip
                    || (is_named h args (codes "case") 1
                        || strcmp_eq h (codes "dotimes") && is_counter args)))))

abbrev pub is_sugar_node : Bool → NodeType → Nodes → Bool
is_sugar_node skip list (cons (node symbol l h c) args) = is_sugar skip h args
is_sugar_node skip t cs = false

-- No list in the tree is a form that is rewritten; what hangs on an atom is not looked at.
abbrev mutual
  pub IsCore : Bool → Node → Type 0
  IsCore skip (node list line text cs) = (is_sugar_node skip list cs ≡ false) × AllCore skip cs
  IsCore skip (node vec line text cs) = AllCore skip cs
  IsCore skip (node map line text cs) = AllCore skip cs
  IsCore skip (node t line text cs) = Unit

  pub AllCore : Bool → Nodes → Type 0
  AllCore skip nil = Unit
  AllCore skip (cons n ns) = IsCore skip n × AllCore skip ns

pub bytes_eq-eq : (a b : Bytes) → bytes_eq a b ≡ true → a ≡ b
unfolding bytes_eq
bytes_eq-eq [] [] h = refl
bytes_eq-eq (x ∷ a) (y ∷ b) h = elim (Bool-cases (x == y)) [
  | inl e ↦ ap (λ z. z ∷ a) ((==_iff x y).0 e) ∙ ap (λ z. y ∷ z) (bytes_eq-eq a b (rw e at h))
  | inr n ↦ absurd (false-true (rw n at h))
]
  where
    false-true : false ≡ true → ⊥
    false-true e = ground arith
bytes_eq-eq [] (y ∷ b) h = absurd (ground arith)
bytes_eq-eq (x ∷ a) [] h = absurd (ground arith)

or_elim {ℓ} : {C : Type ℓ} {a b : Bool} → (a ≡ true → C) → (b ≡ true → C) → (a || b) ≡ true → C
or_elim {a = true} f g h = f refl
or_elim {a = false} f g h = g h

pub or_false : {a b : Bool} → (a || b) ≡ false → (a ≡ false) × (b ≡ false)
or_false h = ground arith

-- A head is told from others by its text alone.
same_head :
    (skip : Bool) (h x : Bytes) (args : Nodes)
    → is_sugar skip x args ≡ false
    → strcmp_eq h x ≡ true
    → is_sugar skip h args ≡ false
unfolding is_fold_op strcmp_eq
same_head skip h x args k e = rw (bytes_eq-eq (c_str h) (c_str x) e) k

-- A call of an operation on two operands is no sugar.
pub fold_call_plain :
    (skip : Bool) (h : Bytes) (a b : Node)
    → is_fold_op h ≡ true
    → is_sugar skip h (cons a (cons b nil)) ≡ false
unfolding is_fold_op strcmp_eq c_str bytes_eq
fold_call_plain skip h a b e =
    or_elim
      (or_elim
        (or_elim
          (or_elim
            (or_elim
              (or_elim (or_elim (same (codes "+") refl) (same (codes "-") refl))
                (same (codes "*") refl))
              (same (codes "and") refl))
            (same (codes "or") refl))
          (same (codes "bit-and") refl))
        (same (codes "bit-or") refl))
      (same (codes "bit-xor") refl) e
  where
    same :
        (x : Bytes)
        → is_sugar skip x (cons a (cons b nil)) ≡ false
        → strcmp_eq h x ≡ true
        → is_sugar skip h (cons a (cons b nil)) ≡ false
    same x k t = same_head skip h x (cons a (cons b nil)) k t
