-- ===== src/Ast/Children.antt =====
-- src/ast.c: `node_push_child` on the array of child pointers, with its copy loop and its growth.
-- `size_t` is 64 bits and a pointer eight bytes.
pub mod Tests
use parena.Prelude.{
  ℕ, zero, suc, ◌+◌, ◌*◌, ◌/◌, ◌%◌, ◌^◌, ◌≤◌, ◌<◌, ◌≡◌, refl, sym, ap, ◌∙◌, List, [], ◌∷◌, ◌++◌,
  ◌==◌, if◌then◌else◌, arith, length, take, set, get_or, replicate, length-set, length-replicate,
  take-set, Bool-cases, inl, inr, true, false,
}

-- `children` has the slots of the array; those from `child_count` on are not read.
pub record ChildArray {ℓ} (A : Type ℓ) : Type ℓ where
  pub children : List A
  pub child_count : ℕ
  pub child_capacity : ℕ

unfoldable pub no_children {ℓ} : {A : Type ℓ} → ChildArray A
no_children = record { children = []; child_count = 0; child_capacity = 0 }

unfoldable pub grown_capacity : ℕ → ℕ
grown_capacity c = if c == 0 then 4 else c * 2 % 2 ^ 64

-- The slots of `arena_alloc(a, new_cap * sizeof(Node *))`.
unfoldable pub slots_for : ℕ → ℕ
slots_for new_cap = new_cap * 8 % 2 ^ 64 / 8

module _ {ℓ} {A : Type ℓ} (unset : A) where
  -- `count` rounds of the loop, the first at index `i`.
  unfoldable pub copy_children : ℕ → ℕ → List A → List A → List A
  copy_children zero i old new_arr = new_arr
  copy_children (suc count) i old new_arr =
      copy_children count (i + 1) old (set new_arr i (get_or old i unset))

  unfoldable pub with_room : ChildArray A → ChildArray A
  with_room p =
      if p.child_count == p.child_capacity
      then (let new_cap = grown_capacity p.child_capacity in
          record {
            children =
                copy_children p.child_count 0 p.children (replicate (slots_for new_cap) unset);
            child_count = p.child_count;
            child_capacity = new_cap;
          })
      else p

  unfoldable pub node_push_child : ChildArray A → A → ChildArray A
  node_push_child p child =
      let q = with_room p in
      record q { children = set q.children q.child_count child; child_count = q.child_count + 1 }

-- The children in use lie in the array, which has the slots that its capacity says.
pub record IsChildArray {ℓ} {A : Type ℓ} (p : ChildArray A) : Type 0 where
  pub in_use : p.child_count ≤ p.child_capacity
  pub slots : length p.children ≡ p.child_capacity

grown_capacity-room : (c : ℕ) → c < 2 ^ 60 → (c < grown_capacity c) × (grown_capacity c < 2 ^ 61)
unfolding grown_capacity
grown_capacity-room c h = elim (Bool-cases (c == 0)) [
  | inl e ↦ rw e (ground arith, omega arith)
  | inr e ↦ rw e (ground arith, omega arith)
]

slots_for_lem : (n : ℕ) → n < 2 ^ 61 → slots_for n ≡ n
unfolding slots_for
slots_for_lem n h = omega arith

module _ {ℓ} {A : Type ℓ} where
  take-set_last :
      (n : ℕ) (xs : List A) (v : A)
      → n < length xs
      → take (suc n) (set xs n v) ≡ take n xs ++ (v ∷ [])
  take-set_last n [] v h = absurd (omega (arith, h))
  take-set_last zero (x ∷ xs) v h = refl
  take-set_last (suc n) (x ∷ xs) v h = ap (λ zs. x ∷ zs) (take-set_last n xs v (omega (arith, h)))

  take-get_or :
      (n : ℕ) (xs : List A) (d : A)
      → n < length xs
      → take (suc n) xs ≡ take n xs ++ (get_or xs n d ∷ [])
  take-get_or n [] d h = absurd (omega (arith, h))
  take-get_or zero (x ∷ xs) d h = refl
  take-get_or (suc n) (x ∷ xs) d h = ap (λ zs. x ∷ zs) (take-get_or n xs d (omega (arith, h)))

  -- The loop copies: what is the same below `i` is the same below the index behind the last round.
  copy_children-take :
      (unset : A) (count i : ℕ) (old new_arr : List A)
      → count + i ≤ length old
      → count + i ≤ length new_arr
      → take i new_arr ≡ take i old
      → take (count + i) (copy_children unset count i old new_arr) ≡ take (count + i) old
  unfolding copy_children
  copy_children-take unset zero i old new_arr h k e = let z : 0 + i ≡ i = omega arith in rw z e
  copy_children-take unset (suc count) i old new_arr h k e =
      let v = get_or old i unset in
      let one : i + 1 ≡ suc i = omega arith in
      let step : take (suc i) (set new_arr i v) ≡ take (suc i) old =
        take-set_last i new_arr v (omega (arith, k))
        ∙ ap (λ zs. zs ++ (v ∷ [])) e
        ∙ sym (take-get_or i old unset (omega (arith, h))) in
      let l : length (set new_arr i v) ≡ length new_arr = length-set new_arr i v in
      let n : suc count + i ≡ count + suc i = omega arith in
      rw (one, n)
        (copy_children-take unset count (suc i) old (set new_arr i v) (omega (arith, h))
          (omega (arith, k, l)) step)

  length-copy_children :
      (unset : A) (count i : ℕ) (old new_arr : List A)
      → length (copy_children unset count i old new_arr) ≡ length new_arr
  unfolding copy_children
  length-copy_children unset zero i old new_arr = refl
  length-copy_children unset (suc count) i old new_arr =
      length-copy_children unset count (i + 1) old (set new_arr i (get_or old i unset))
      ∙ length-set new_arr i (get_or old i unset)

  -- What the array is before the child is written: the children are those of before, and there is
  -- a slot behind them.
  record Roomy (p q : ChildArray A) : Type ℓ where
    pub count_same : q.child_count ≡ p.child_count
    pub room : p.child_count < q.child_capacity
    pub slots : length q.children ≡ q.child_capacity
    pub kept : take p.child_count q.children ≡ take p.child_count p.children

  with_room-Roomy :
      (unset : A) (p : ChildArray A)
      → IsChildArray p
      → p.child_capacity < 2 ^ 60
      → Roomy p (with_room unset p)
  unfolding with_room
  with_room-Roomy unset p ok h = elim (Bool-cases (p.child_count == p.child_capacity)) [
    | inr e ↦ rw e (record {
      count_same = refl;
      room = ground (arith, ok.in_use);
      slots = ok.slots;
      kept = refl;
    })
    | inl e ↦
        let c : p.child_count ≡ p.child_capacity = ground arith in
        let (more, bound) = grown_capacity-room p.child_capacity h in
        let cap' = grown_capacity p.child_capacity in
        let fresh = replicate (slots_for cap') unset in
        let l : length fresh ≡ cap' =
          length-replicate (slots_for cap') unset ∙ slots_for_lem cap' bound in
        let z : p.child_count + 0 ≡ p.child_count = omega arith in
        rw e (record {
          count_same = refl;
          room = omega (arith, c, more);
          slots = length-copy_children unset p.child_count 0 p.children fresh ∙ l;
          kept = rw z at (
              copy_children-take unset p.child_count 0 p.children fresh (omega (arith, c, ok.slots))
                (omega (arith, c, more, l)) refl);
        })
  ]

-- Whether the array is full or not, a child is pushed into a slot of the array, the array has the slots
-- that its capacity says, and the children are those of before, in their order, and the new one, as
-- long as the capacity is below 2 ^ 60.
pub node_push_child-IsChildArray {ℓ} :
    {A : Type ℓ} (unset : A) (p : ChildArray A) (child : A)
    → IsChildArray p
    → p.child_capacity < 2 ^ 60
    → IsChildArray (node_push_child unset p child)
      × (take (suc p.child_count) (ChildArray.children (node_push_child unset p child))
          ≡ take p.child_count p.children ++ (child ∷ []))
      × (ChildArray.child_count (node_push_child unset p child) ≡ suc p.child_count)
unfolding node_push_child
node_push_child-IsChildArray unset p child ok h =
    let q = with_room unset p in
    let r = with_room-Roomy unset p ok h in
    (
      record {
        in_use = omega (arith, r.count_same, r.room);
        slots = length-set q.children q.child_count child ∙ r.slots;
      },
      rw r.count_same (
          take-set_last p.child_count q.children child (omega (arith, r.room, r.slots))
          ∙ ap (λ zs. zs ++ (child ∷ [])) r.kept),
      omega (arith, r.count_same),
    )
