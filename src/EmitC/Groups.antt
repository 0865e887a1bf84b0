-- ===== src/EmitC/Groups.antt =====
-- src/emit.c: where `find_fnptr_star_group` finds the stars of a type, and of the pointer to it.
use parena.Prelude.{
  ℕ, suc, true, false, ◌&&◌, ◌≡◌, zero, none-some, refl, sym, ap, [], ◌∷◌, ◌++◌, Option, none, some,
  ◌==◌, Bytes, codes, replicate, arith, Bool-cases, inl, inr,
}
use parena.EmitC.Declarators.{
  is_star_head, behind, find_paren, one_more, count_stars, StarGroup, closed, in_paren,
  find_fnptr_star_group,
}

abbrev Split : Bytes → Option (Bytes × Bytes) → Type 0
Split t none = Unit
Split t (some (p, r)) =
    (t ≡ p ++ (b'(' ∷ r))
    × ((q : Bytes) → is_star_head q ≡ true → find_paren (p ++ (b'(' ∷ q)) ≡ some (p, q))

head_same : (p q r : Bytes) → is_star_head (p ++ (b'(' ∷ q)) ≡ is_star_head (p ++ (b'(' ∷ r))
head_same [] q r = refl
head_same (c ∷ p) q r = refl

behind-Split :
    (c : ℕ) (cs : Bytes) (o : Option (Bytes × Bytes))
    → (c == b'(' && is_star_head cs) ≡ false
    → Split cs o
    → Split (c ∷ cs) (behind c o)
unfolding find_paren
behind-Split c cs none h s = tt
behind-Split c cs (some (p, r)) h s = (
  ap (λ z. c ∷ z) s.0,
  λ q star.
      let e : (c == b'(' && is_star_head (p ++ (b'(' ∷ q))) ≡ false =
        rw (head_same p q r, sym s.0) h in
      rw (e, s.1 q star) refl,
)

paren-Split : (t : Bytes) → Split t (find_paren t)
unfolding find_paren
paren-Split [] = tt
paren-Split (c ∷ cs) = elim (Bool-cases (c == b'(' && is_star_head cs)) [
  | inl e ↦ let f : c ≡ b'(' = ground arith in rw (e, f) (refl, λ q star. rw star refl)
  | inr e ↦ rw e (behind-Split c cs (find_paren cs) e (paren-Split cs))
]

count_stars-same : (t : Bytes) → t ≡ replicate (count_stars t).0 b'*' ++ (count_stars t).1
unfolding count_stars
count_stars-same [] = refl
count_stars-same (c ∷ cs) = elim (Bool-cases (c == b'*')) [
  | inl e ↦ let f : c ≡ b'*' = ground arith in rw (e, f) (ap (λ z. b'*' ∷ z) (count_stars-same cs))
  | inr e ↦ rw e refl
]

count_stars-replicate :
    (n : ℕ) (s : Bytes) → count_stars (replicate n b'*' ++ (b')' ∷ s)) ≡ (n, b')' ∷ s)
unfolding count_stars
count_stars-replicate zero s = refl
count_stars-replicate (suc n) s = ap one_more (count_stars-replicate n s)

-- The type around a group of stars.
abbrev pub around : Bytes → ℕ → Bytes → Bytes
around p n s = p ++ (b'(' ∷ (replicate n b'*' ++ (b')' ∷ s)))

-- A group is where the type has it, and one more star is found in its place.
abbrev pub Group : Bytes → Option StarGroup → Type 0
Group t none = Unit
Group t (some (p, (n, s))) =
    (t ≡ around p n s) × (find_fnptr_star_group (around p (suc n) s) ≡ some (p, (suc n, s)))

found_again :
    (p s : Bytes) (n : ℕ)
    → find_paren (around p (suc n) s) ≡ some (p, replicate (suc n) b'*' ++ (b')' ∷ s))
    → find_fnptr_star_group (around p (suc n) s) ≡ some (p, (suc n, s))
unfolding find_fnptr_star_group
found_again p s n h = rw (h, count_stars-replicate (suc n) s) refl

closed-Group :
    (t p r : Bytes) (w : ℕ × Bytes)
    → r ≡ replicate w.0 b'*' ++ w.1
    → Split t (some (p, r))
    → Group t (closed p w)
closed-Group t p r (n, []) e h = tt
closed-Group t p r (n, c ∷ s) e h = elim (Bool-cases (c == b')')) [
  | inl k ↦
      let f : c ≡ b')' = ground arith in rw k (rw (e, f) at h.0, found_again p s n (h.1 _ refl))
  | inr k ↦ rw k tt
]

in_paren-Group : (t : Bytes) (o : Option (Bytes × Bytes)) → Split t o → Group t (in_paren o)
in_paren-Group t none h = tt
in_paren-Group t (some (p, r)) h = closed-Group t p r (count_stars r) (count_stars-same r) h

pub find_fnptr_star_group-Group : (t : Bytes) → Group t (find_fnptr_star_group t)
unfolding find_fnptr_star_group
find_fnptr_star_group-Group t = in_paren-Group t (find_paren t) (paren-Split t)

-- What a type that is no function pointer becomes.
abbrev star : Bytes
star = codes " *"

abbrev followed : Option (Bytes × Bytes) → Option (Bytes × Bytes)
followed none = none
followed (some (p, r)) = some (p, r ++ star)

behind-followed :
    (c : ℕ) (o : Option (Bytes × Bytes)) → behind c (followed o) ≡ followed (behind c o)
behind-followed c none = refl
behind-followed c (some w) = refl

head_followed : (t : Bytes) → is_star_head (t ++ star) ≡ is_star_head t
head_followed [] = refl
head_followed (c ∷ t) = refl

find_paren-append : (t : Bytes) → find_paren (t ++ star) ≡ followed (find_paren t)
unfolding find_paren
find_paren-append [] = refl
find_paren-append (c ∷ cs) = elim (Bool-cases (c == b'(' && is_star_head cs)) [
  | inl e ↦ rw (head_followed cs, e) refl
  | inr e ↦ rw (head_followed cs, e, find_paren-append cs) (behind-followed c (find_paren cs))
]

one_more-append :
    (w : ℕ × Bytes) → one_more (w.0, w.1 ++ star) ≡ ((one_more w).0, (one_more w).1 ++ star)
one_more-append w = refl

count_stars-append :
    (t : Bytes) → count_stars (t ++ star) ≡ ((count_stars t).0, (count_stars t).1 ++ star)
unfolding count_stars
count_stars-append [] = refl
count_stars-append (c ∷ cs) = elim (Bool-cases (c == b'*')) [
  | inl e ↦ rw (e, count_stars-append cs) refl
  | inr e ↦ rw e refl
]

closed-append : (p : Bytes) (w : ℕ × Bytes) → closed p w ≡ none → closed p (w.0, w.1 ++ star) ≡ none
closed-append p (n, []) h = refl
closed-append p (n, c ∷ s) h = elim (Bool-cases (c == b')')) [
  | inl e ↦ absurd (none-some (sym (rw e at h)))
  | inr e ↦ rw e refl
]

in_paren-append : (o : Option (Bytes × Bytes)) → in_paren o ≡ none → in_paren (followed o) ≡ none
in_paren-append none h = refl
in_paren-append (some (p, r)) h = rw (count_stars-append r) (closed-append p (count_stars r) h)

pub find_fnptr_star_group-none :
    (t : Bytes) → find_fnptr_star_group t ≡ none → find_fnptr_star_group (t ++ codes " *") ≡ none
unfolding find_fnptr_star_group
find_fnptr_star_group-none t h = rw (find_paren-append t) (in_paren-append (find_paren t) h)
