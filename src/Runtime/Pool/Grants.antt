-- ===== src/Runtime/Pool/Grants.antt =====
-- What a grant of the pool is, and that giving it back restores the pool.
use parena.Prelude.{
  ℕ, zero, suc, ◌+◌, ◌*◌, ◌^◌, ◌≤◌, ◌<◌, ◌≡◌, refl, ap, ◌∙◌, sym, Bool, true, false, ◌||◌, List, [],
  ◌∷◌, ◌++◌, append_assoc, Option, none, some, arith, ◌==◌, ltb, if◌then◌else◌, Bool-cases, inl,
  inr, length, replicate, length-append, set,
}
use mathlib.Core.Path.{subst}
use parena.Runtime.Pool.{
  Pool, block_bytes, scan, set_range, blocks_for, take_run, taken_at, static_alloc,
}
use parena.Runtime.Pool.Scan.{FreeAt, scan-FreeAt, HasRun, scan-none_lem}

set-append :
    (b : List Bool) (x v : Bool) (r : List Bool) (i : ℕ)
    → length b ≡ i
    → set (b ++ (x ∷ r)) i v ≡ b ++ (v ∷ r)
set-append [] x v r zero e = refl
set-append [] x v r (suc i) e = absurd (omega arith)
set-append (y ∷ b) x v r zero e = absurd (omega arith)
set-append (y ∷ b) x v r (suc i) e = ap (λ l. y ∷ l) (set-append b x v r i (omega arith))

length-append_cells : (a b : List Bool) → length (a ++ b) ≡ length a + length b
length-append_cells = length-append

-- Writing the cells of one run.
pub set_range-run :
    (n : ℕ) (b a : List Bool) (w v : Bool) (first : ℕ)
    → length b ≡ first
    → set_range (b ++ (replicate n w ++ a)) first n v ≡ b ++ (replicate n v ++ a)
unfolding set_range
set_range-run zero b a w v first e = refl
set_range-run (suc n) b a w v first e =
    ap (λ l. set_range l (first + 1) n v) (set-append b w v (replicate n w ++ a) first e)
    ∙ ap (λ l. set_range l (first + 1) n v) (sym (append_assoc b (v ∷ []) (replicate n w ++ a)))
    ∙ set_range-run n (b ++ (v ∷ [])) a w v (first + 1)
        (omega (arith, length-append_cells b (v ∷ []), e))
    ∙ append_assoc b (v ∷ []) (replicate n v ++ a)

abbrev pub count_used : List Bool → ℕ
count_used [] = 0
count_used (true ∷ us) = count_used us + 1
count_used (false ∷ us) = count_used us

pub count_used-append : (a b : List Bool) → count_used (a ++ b) ≡ count_used a + count_used b
count_used-append [] b = omega arith
count_used-append (true ∷ a) b = omega (arith, count_used-append a b)
count_used-append (false ∷ a) b = omega (arith, count_used-append a b)

pub count_used-replicate :
    (n : ℕ) → (count_used (replicate n true) ≡ n) × (count_used (replicate n false) ≡ 0)
count_used-replicate zero = (refl, refl)
count_used-replicate (suc n) = omega (arith, count_used-replicate n)

-- The grant of `need` blocks at `first`: they were free, they and no others become used, and the
-- table and the counters record them.
pub record Grants (p : Pool) (bytes first : ℕ) (q : Pool) : Type 0 where
  pub need : ℕ
  pub positive : 0 < need
  pub enough : bytes ≤ need * block_bytes
  pub tight : need * block_bytes < bytes + block_bytes
  pub before : List Bool
  pub after : List Bool
  pub starts : length before ≡ first
  pub was_free : p.used ≡ before ++ (replicate need false ++ after)
  pub is_used : q.used ≡ before ++ (replicate need true ++ after)
  pub recorded : q.run ≡ set p.run first need
  pub in_use_grows : q.in_use ≡ p.in_use + need * block_bytes
  pub high_covers : (q.in_use ≤ q.high) × (p.high ≤ q.high)

blocks_for_bounds :
    (bytes : ℕ)
    → bytes + block_bytes < 2 ^ 64
    → (bytes ≤ blocks_for bytes * block_bytes)
      × (blocks_for bytes * block_bytes < bytes + block_bytes)
unfolding blocks_for
blocks_for_bounds bytes h = omega arith

alloc_found :
    (p : Pool) (need first : ℕ) (q : Pool) (o : Option ℕ)
    → (if need == 0 || ltb 65535 need then none else taken_at p need o) ≡ some (first, q)
    → (0 < need) × (o ≡ some first) × (take_run p first need ≡ q)
alloc_found p need first q none e = absurd (ground arith)
alloc_found p need first q (some f) e = elim (Bool-cases (need == 0 || ltb 65535 need)) [
  | inl bad ↦ cc (rw bad at e)
  | inr good ↦
      let h = rw good at e in
      let same : f ≡ first = cc h in
      (ground arith, cc same, ap (λ k. take_run p k need) (sym same) ∙ cc h)
]

max_bounds : (h n : ℕ) → (n ≤ (if ltb h n then n else h)) × (h ≤ (if ltb h n then n else h))
max_bounds h n = ground arith

take_run-Grants :
    (p : Pool) (bytes need first : ℕ)
    → 0 < need
    → bytes ≤ need * block_bytes
    → need * block_bytes < bytes + block_bytes
    → FreeAt p.used first need
    → Grants p bytes first (take_run p first need)
unfolding take_run
take_run-Grants p bytes need first pos enough tight f = record {
  need = need;
  positive = pos;
  enough = enough;
  tight = tight;
  before = f.before;
  after = f.after;
  starts = f.starts;
  was_free = f.splits;
  is_used =
      ap (λ l. set_range l first need true) f.splits
      ∙ set_range-run need f.before f.after false true first f.starts;
  recorded = refl;
  in_use_grows = refl;
  high_covers = max_bounds p.high (p.in_use + need * block_bytes);
}

-- A request that the pool grants is given blocks that were free, just as many as it needs; they
-- and no others become used, and the run table, the use and the high-water mark record the grant.
pub static_alloc-Grants :
    (p : Pool) (bytes : ℕ) {first : ℕ} {q : Pool}
    → bytes + block_bytes < 2 ^ 64
    → static_alloc p bytes ≡ some (first, q)
    → Grants p bytes first q
unfolding static_alloc
static_alloc-Grants p bytes {first} {q} h e =
    let need = blocks_for bytes in
    let (pos, found, made) = alloc_found p need first q (scan p.used 0 0 need) e in
    let (enough, tight) = blocks_for_bounds bytes h in
    subst (Grants p bytes first) made (
      take_run-Grants p bytes need first pos enough tight (scan-FreeAt p.used need first pos found))

refused :
    (p : Pool) (need : ℕ) (o : Option ℕ)
    → 0 < need
    → need ≤ 65535
    → (if need == 0 || ltb 65535 need then none else taken_at p need o) ≡ none
    → o ≡ none
refused p need none a b e = refl
refused p need (some f) a b e = absurd (ground arith)

-- A request of at most 65535 blocks that the pool refuses is one for which there is no run of free
-- blocks, anywhere in the pool.
pub static_alloc-none :
    (p : Pool) (bytes : ℕ)
    → 0 < bytes
    → bytes ≤ 65535 * block_bytes
    → static_alloc p bytes ≡ none
    → ¬ HasRun (blocks_for bytes) p.used
unfolding static_alloc
static_alloc-none p bytes pos small e =
    let need = blocks_for bytes in
    let (lo, hi) = blocks_for_bounds bytes (omega arith) in
    scan-none_lem p.used need (omega arith)
      (refused p need (scan p.used 0 0 need) (omega arith) (omega arith) e)
