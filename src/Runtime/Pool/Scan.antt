-- ===== src/Runtime/Pool/Scan.antt =====
-- The scan is sound and complete: what it finds is a run of free cells, and it finds one if there is
-- any.
use parena.Prelude.{
  ℕ, zero, suc, ◌+◌, ◌-◌, ◌≤◌, ◌<◌, ◌≡◌, ◌⊎◌, refl, ap, ◌∙◌, sym, Bool, true, false, List, [], ◌∷◌,
  ◌++◌, append_assoc, none, some, arith, ◌==◌, Bool-cases, inl, inr, length, replicate,
  length-append, length-replicate,
}
use native.Mathlib.Numerals.{add-one}
use parena.Runtime.Pool.{scan}

-- `us` with `n` free cells behind `first` cells.
pub record FreeAt (us : List Bool) (first n : ℕ) : Type 0 where
  pub before : List Bool
  pub after : List Bool
  pub splits : us ≡ before ++ (replicate n false ++ after)
  pub starts : length before ≡ first

replicate_snoc :
    (r : ℕ) (us : List Bool) → replicate r false ++ (false ∷ us) ≡ replicate (suc r) false ++ us
replicate_snoc zero us = refl
replicate_snoc (suc r) us = ap (λ l. false ∷ l) (replicate_snoc r us)

length-append_cells : (a b : List Bool) → length (a ++ b) ≡ length a + length b
length-append_cells = length-append

length_used : (r : ℕ) (b : List Bool) → length (replicate r false ++ (true ∷ b)) ≡ r + 1 + length b
length_used r b =
    omega (arith, length-append_cells (replicate r false) (true ∷ b), length-replicate {0} r false)

-- A run that the scan has found: `r` cells before `us` are free too, and `us` starts at cell `i`.
record Found (us : List Bool) (i r need first : ℕ) : Type 0 where
  before : List Bool
  after : List Bool
  splits : replicate r false ++ us ≡ before ++ (replicate need false ++ after)
  starts : length before + i ≡ first + r

Found-used :
    (us : List Bool) (i r need first : ℕ)
    → Found us (i + 1) 0 need first
    → Found (true ∷ us) i r need first
Found-used us i r need first f = record {
  before = replicate r false ++ (true ∷ f.before);
  after = f.after;
  splits =
      ap (λ l. replicate r false ++ (true ∷ l)) f.splits
      ∙ sym (append_assoc (replicate r false) (true ∷ f.before) (replicate need false ++ f.after));
  starts = omega (arith, length_used r f.before, f.starts);
}

Found-free :
    (us : List Bool) (i r need first : ℕ)
    → Found us (i + 1) (r + 1) need first
    → Found (false ∷ us) i r need first
Found-free us i r need first f = record {
  before = f.before;
  after = f.after;
  splits = replicate_snoc r us ∙ rw (add-one r) at f.splits;
  starts = omega (arith, f.starts);
}

scan-Found :
    (us : List Bool) (i r need first : ℕ)
    → r < need
    → r ≤ i
    → scan us i r need ≡ some first
    → Found us i r need first
unfolding scan
scan-Found [] i r need first lt le e = cc
scan-Found (true ∷ us) i r need first lt le e =
    Found-used us i r need first (scan-Found us (i + 1) 0 need first (omega arith) (omega arith) e)
scan-Found (false ∷ us) i r need first lt le e = elim (Bool-cases (r + 1 == need)) [
  | inl same ↦
      let n : need ≡ suc r = ground arith in
      rw n (record { before = []; after = us; splits = replicate_snoc r us; starts = ground arith })
  | inr other ↦
      Found-free us i r need first
        (scan-Found us (i + 1) (r + 1) need first (ground arith) (omega arith) (rw other at e))
]

-- The scan from the start of the pool finds free cells, as many as it was asked for.
pub scan-FreeAt :
    (us : List Bool) (need first : ℕ)
    → 0 < need
    → scan us 0 0 need ≡ some first
    → FreeAt us first need
scan-FreeAt us need first lt e =
    let f = scan-Found us 0 0 need first lt (omega arith) e in
    record {
      before = f.before;
      after = f.after;
      splits = f.splits;
      starts = omega (arith, f.starts);
    }

-- The first `n` cells are there, and free.
abbrev pub FreePrefix : ℕ → List Bool → Type 0
FreePrefix zero us = Unit
FreePrefix (suc n) [] = ⊥
FreePrefix (suc n) (true ∷ us) = ⊥
FreePrefix (suc n) (false ∷ us) = FreePrefix n us

FreePrefix-le : (m n : ℕ) (us : List Bool) → m ≤ n → FreePrefix n us → FreePrefix m us
FreePrefix-le zero n us h p = tt
FreePrefix-le (suc m) zero us h p = absurd (omega arith)
FreePrefix-le (suc m) (suc n) [] h p = p
FreePrefix-le (suc m) (suc n) (true ∷ us) h p = p
FreePrefix-le (suc m) (suc n) (false ∷ us) h p = FreePrefix-le m n us (omega arith) p

-- Some `n` cells in a row are free.
pub data HasRun (n : ℕ) : List Bool → Type 0 where
  here : {us : List Bool} → FreePrefix n us → HasRun n us
  there : {u : Bool} {us : List Bool} → HasRun n us → HasRun n (u ∷ us)

HasRun-nil : {n : ℕ} → HasRun n [] → FreePrefix n []
HasRun-nil (here p) = p

HasRun-cons :
    {n : ℕ} {u : Bool} {us : List Bool} → HasRun n (u ∷ us) → FreePrefix n (u ∷ us) ⊎ HasRun n us
HasRun-cons (here p) = inl p
HasRun-cons (there h) = inr h

no_prefix_nil : (n : ℕ) → 0 < n → FreePrefix n [] → ⊥
no_prefix_nil zero h p = absurd (omega arith)
no_prefix_nil (suc n) h p = p

no_prefix_used : (n : ℕ) (us : List Bool) → 0 < n → FreePrefix n (true ∷ us) → ⊥
no_prefix_used zero us h p = absurd (omega arith)
no_prefix_used (suc n) us h p = p

pred_suc : (n : ℕ) → suc n - 1 ≡ n
pred_suc n = omega arith

prefix_tail : (n : ℕ) (us : List Bool) → 0 < n → FreePrefix n (false ∷ us) → FreePrefix (n - 1) us
prefix_tail zero us h p = absurd (omega arith)
prefix_tail (suc n) us h p = rw (pred_suc n) p

-- If `suc k` more free cells would do, a scan that fails has found neither these nor a later run.
scan-none :
    (us : List Bool) (i r k need : ℕ)
    → suc k + r ≡ need
    → scan us i r need ≡ none
    → (FreePrefix (suc k) us → ⊥) × (HasRun need us → ⊥)
unfolding scan
scan-none [] i r k need e h = (λ p. p, λ p. no_prefix_nil need (omega arith) (HasRun-nil p))
scan-none (true ∷ us) i r k need e h = (
  λ p. p,
  λ p. elim (HasRun-cons p) [
    | inl q ↦ no_prefix_used need us (omega arith) q
    | inr q ↦ (scan-none us (i + 1) 0 (need - 1) need (omega arith) h).1 q
  ],
)
scan-none (false ∷ us) i r zero need e h = absurd (ground arith)
scan-none (false ∷ us) i r (suc k) need e h =
    let more : (r + 1 == need) ≡ false = ground arith in
    let (p, q) = scan-none us (i + 1) (r + 1) k need (omega arith) (rw more at h) in
    (
      p,
      λ run. elim (HasRun-cons run) [
        | inl f ↦ p (
            FreePrefix-le (suc k) (need - 1) us (omega arith) (prefix_tail need us (omega arith) f))
        | inr f ↦ q f
      ],
    )

-- A scan that fails shows that the pool has no run of free cells as long as it was asked for.
pub scan-none_lem :
    (us : List Bool) (need : ℕ) → 0 < need → scan us 0 0 need ≡ none → HasRun need us → ⊥
scan-none_lem us need lt h = (scan-none us 0 0 (need - 1) need (omega arith) h).1
