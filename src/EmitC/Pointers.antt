-- ===== src/EmitC/Pointers.antt =====
-- src/emit.c: the declaration of a pointer.
use parena.Prelude.{
  ℕ, zero, suc, ◌+◌, ◌≤◌, true, ◌≡◌, refl, ap, ◌∙◌, [], ◌∷◌, ◌++◌, append_assoc, Option, none, some,
  Bytes, codes, length, length-append, length-replicate, take, replicate, arith, Option-cases,
  Bool-cases, inl, inr,
}
use mathlib.Core.Path.{subst}
use parena.EmitC.Declarators.{
  StarGroup, is_pointer_c_type, find_fnptr_star_group, ends_in_star, star_text, decl_text,
  type_ptr_text, format_c_decl, format_c_type_ptr, format_c_decl_ptr,
}
use parena.EmitC.Groups.{around, Group, find_fnptr_star_group-Group, find_fnptr_star_group-none}

-- A declaration in C: the declarator stands behind the type, or behind the stars in the brackets.
abbrev pub declared_at : Bytes → Bytes → Option StarGroup → Bytes
declared_at c_type d none = c_type ++ (codes " " ++ d)
declared_at c_type d (some (before, (stars, suffix))) =
    before ++ (codes "(" ++ (replicate stars b'*' ++ (d ++ (codes ")" ++ suffix))))

abbrev pub declared : Bytes → Bytes → Bytes
declared c_type d = declared_at c_type d (find_fnptr_star_group c_type)

abbrev pub stars_of : Option StarGroup → ℕ
stars_of none = 0
stars_of (some (before, (stars, suffix))) = stars

take-all : (n : ℕ) (xs : Bytes) → length xs ≤ n → take n xs ≡ xs
take-all zero [] h = refl
take-all (suc n) [] h = refl
take-all zero (x ∷ xs) h = absurd (omega arith)
take-all (suc n) (x ∷ xs) h = ap (λ ys. x ∷ ys) (take-all n xs (omega arith))

ends_in_star-append : (t : Bytes) → ends_in_star (t ++ codes " *") ≡ true
unfolding ends_in_star
ends_in_star-append [] = refl
ends_in_star-append (c ∷ []) = refl
ends_in_star-append (c ∷ d ∷ t) = ends_in_star-append (d ∷ t)

replicate_snoc :
    (n : ℕ) (ds : Bytes) → replicate (suc n) b'*' ++ ds ≡ replicate n b'*' ++ (b'*' ∷ ds)
replicate_snoc zero ds = refl
replicate_snoc (suc n) ds = ap (λ z. b'*' ∷ z) (replicate_snoc n ds)

length_around :
    (p s d : Bytes) (n : ℕ)
    → length (p ++ (b'(' ∷ (replicate n b'*' ++ (d ++ (b')' ∷ s)))))
      ≡ length p + n + length d + length s + 2
length_around p s d n = omega (
  arith,
  length-append p (b'(' ∷ (replicate n b'*' ++ (d ++ (b')' ∷ s)))),
  length-append (replicate n b'*') (d ++ (b')' ∷ s)),
  length-append d (b')' ∷ s),
  length-replicate {A = ℕ} n b'*',
)

ordinary_type : (t : Bytes) → length t + 3 ≤ 255 → type_ptr_text t none ≡ t ++ codes " *"
ordinary_type t h = take-all 255 (t ++ codes " *") (omega (arith, length-append t (codes " *")))

ordinary :
    (t name : Bytes)
    → length t + length name + 3 ≤ 255
    → find_fnptr_star_group t ≡ none
    → format_c_decl_ptr t name ≡ declared t (b'*' ∷ name)
unfolding format_c_decl_ptr format_c_decl format_c_type_ptr
ordinary t name h e =
    rw (e, ordinary_type t (omega arith), find_fnptr_star_group-none t e, ends_in_star-append t)
      (rw (append_assoc t (codes " *") name) (
        take-all 255 (t ++ (codes " *" ++ name))
          (omega (arith, length-append t (codes " *" ++ name)))))

star_text_small : (n : ℕ) → n ≤ 7 → star_text n ≡ replicate n b'*'
star_text_small n h = ap (λ k. replicate k b'*') (ground arith)

length_type : (t p s : Bytes) (n : ℕ) → t ≡ around p n s → length t ≡ length p + n + length s + 2
length_type t p s n e = ap length e ∙ omega (arith, length_around p s [] n)

grouped_type :
    (t p s : Bytes) (n : ℕ)
    → t ≡ around p n s
    → n ≤ 6
    → length t + 3 ≤ 255
    → type_ptr_text t (some (p, (n, s))) ≡ around p (suc n) s
grouped_type t p s n g k h =
    let e : n + 1 ≡ suc n = omega arith in
    rw (e, star_text_small (suc n) (omega arith))
      (take-all 255 (around p (suc n) s)
        (omega (arith, length_around p s [] (suc n), length_type t p s n g)))

grouped_name :
    (p s name : Bytes) (n : ℕ)
    → n ≤ 6
    → length p + n + length s + length name + 3 ≤ 255
    → decl_text (around p (suc n) s) name (some (p, (suc n, s)))
      ≡ declared_at (around p n s) (b'*' ∷ name) (some (p, (n, s)))
grouped_name p s name n k h =
    let d : Bytes = name ++ (b')' ∷ s) in
    rw (star_text_small (suc n) (omega arith)) (
      take-all 255 (p ++ (b'(' ∷ (replicate (suc n) b'*' ++ d)))
        (omega (arith, length_around p s name (suc n)))
      ∙ ap (λ z. p ++ (b'(' ∷ z)) (replicate_snoc n d))

grouped :
    (t name p s : Bytes) (n : ℕ)
    → find_fnptr_star_group t ≡ some (p, (n, s))
    → Group t (some (p, (n, s)))
    → n ≤ 6
    → length t + length name + 3 ≤ 255
    → format_c_decl_ptr t name ≡ declared t (b'*' ∷ name)
unfolding format_c_decl_ptr format_c_decl format_c_type_ptr
grouped t name p s n e g k h =
    let l : length t ≡ length p + n + length s + 2 = length_type t p s n g.0 in
    rw (e, grouped_type t p s n g.0 k (omega arith), g.1) (grouped_name p s name n k (omega arith))

ordinary_pointer :
    (t name : Bytes)
    → length t + length name + 3 ≤ 255
    → find_fnptr_star_group t ≡ none
    → is_pointer_c_type (format_c_type_ptr t) ≡ true
unfolding format_c_type_ptr is_pointer_c_type
ordinary_pointer t name h e = rw (e, ordinary_type t (omega arith), ends_in_star-append t) refl

grouped_pointer :
    (t name p s : Bytes) (n : ℕ)
    → find_fnptr_star_group t ≡ some (p, (n, s))
    → Group t (some (p, (n, s)))
    → n ≤ 6
    → length t + length name + 3 ≤ 255
    → is_pointer_c_type (format_c_type_ptr t) ≡ true
unfolding format_c_type_ptr is_pointer_c_type
grouped_pointer t name p s n e g k h =
    rw (e, grouped_type t p s n g.0 k (omega arith))
      (elim (Bool-cases (ends_in_star (around p (suc n) s))) [
        | inl b ↦ rw b refl
        | inr b ↦ rw (b, g.1) refl
      ])

-- If the type and the name have at most 252 bytes together, and a function pointer at most six stars,
-- the pointer to the type counts as a pointer, and its declaration is that of the name with a star
-- before it, in the place where the type has its declarator: behind the type, or in the brackets of a
-- function pointer.
pub format_c_decl_ptr-declared :
    (c_type name : Bytes)
    → length c_type + length name + 3 ≤ 255
    → stars_of (find_fnptr_star_group c_type) ≤ 6
    → (is_pointer_c_type (format_c_type_ptr c_type) ≡ true)
      × (format_c_decl_ptr c_type name ≡ declared c_type (b'*' ∷ name))
format_c_decl_ptr-declared t name h k = elim (Option-cases (find_fnptr_star_group t)) [
  | inl e ↦ (ordinary_pointer t name h e, ordinary t name h e)
  | inr ((p, (n, s)), e) ↦
      let g : Group t (some (p, (n, s))) =
        subst (λ o. Group t o) e (find_fnptr_star_group-Group t) in
      let r : n ≤ 6 = rw e at k in
      (grouped_pointer t name p s n e g r h, grouped t name p s n e g r h)
]
