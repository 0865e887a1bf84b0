-- ===== src/Region/Ranks.antt =====
-- The analyzer ranks two regions: every binding of a scope is unconstrained, or ranked by its region.
use parena.Prelude.{
  ℕ, ◌≡◌, ◌⊎◌, inl, inr, refl, true, [], ◌∷◌, Option, none, some, arith, ltb, Bool-cases, if_cases,
  Bytes, length, strcmp_eq,
}
use parena.Region.Scope.{
  Binding, Frame, Scope, max_bindings, scope_bind, frame_lookup, or_else, scope_lookup, scratch,
  buffer, region_rank_for, annotated,
}

-- The region named by a binding or an error.
pub record Names (kw : Bytes) (o : Option Bytes) : Type 0 where
  pub text : Bytes
  pub present : o ≡ some text
  pub same : strcmp_eq text kw ≡ true

-- A rank comes with the region that has it.
pub record IsRanked (rank : Option ℕ) (region : Option Bytes) : Type 0 where
  pub ranked :
      (r : ℕ) → rank ≡ some r → (r ≡ 0) × Names scratch region ⊎ (r ≡ 2) × Names buffer region

abbrev pub Binds : Binding → Type 0
Binds b = IsRanked b.rank b.region_name

abbrev pub AllBind : Frame → Type 0
AllBind [] = Unit
AllBind (b ∷ bs) = Binds b × AllBind bs

abbrev pub AllRanked : Scope → Type 0
AllRanked [] = Unit
AllRanked (f ∷ fs) = AllBind f × AllRanked fs

-- A predicate on what an option holds.
abbrev pub Holds {ℓ κ} : {A : Type ℓ} → (A → Type κ) → Option A → Type κ
Holds P none = Unit
Holds P (some a) = P a

pub or_else-Holds {ℓ κ} :
    {A : Type ℓ} (P : A → Type κ) (a b : Option A) → Holds P a → Holds P b → Holds P (or_else a b)
or_else-Holds P none b ha hb = hb
or_else-Holds P (some a) b ha hb = ha

pub unranked : (o : Option Bytes) → IsRanked none o
unranked o = record { ranked = λ r e. cc }

pub annotated-Binds : (name : Bytes) (kw : Option Bytes) → Binds (annotated name kw)
unfolding annotated region_rank_for
annotated-Binds name none = unranked none
annotated-Binds name (some kw) = elim (Bool-cases (strcmp_eq kw scratch)) [
  | inl e ↦ rw e (record {
    ranked = λ r q. inl (ground arith, record { text = kw; present = refl; same = e });
  })
  | inr n ↦ elim (Bool-cases (strcmp_eq kw buffer)) [
    | inl e ↦
        rw (n, e)
          (record {
            ranked = λ r q. inr (ground arith, record { text = kw; present = refl; same = e });
          })
    | inr m ↦ rw (n, m) (unranked (some kw))
  ]
]

pub scope_bind-AllBind : (f : Frame) (b : Binding) → AllBind f → Binds b → AllBind (scope_bind f b)
unfolding scope_bind
scope_bind-AllBind f b hf hb =
    if_cases AllBind (ltb (length f) max_bindings) (λ _. (hb, hf)) (λ _. hf)

pub frame_lookup-Holds : (f : Frame) (name : Bytes) → AllBind f → Holds Binds (frame_lookup f name)
unfolding frame_lookup
frame_lookup-Holds [] name h = tt
frame_lookup-Holds (b ∷ bs) name (hb, hs) =
    if_cases (Holds Binds) (strcmp_eq b.name name) (λ _. hb) (λ _. frame_lookup-Holds bs name hs)

pub scope_lookup-Holds :
    (s : Scope) (name : Bytes) → AllRanked s → Holds Binds (scope_lookup s name)
unfolding scope_lookup
scope_lookup-Holds [] name h = tt
scope_lookup-Holds (f ∷ fs) name (hf, hs) =
    or_else-Holds Binds (frame_lookup f name) _ (frame_lookup-Holds f name hf)
      (scope_lookup-Holds fs name hs)
