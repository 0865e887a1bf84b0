-- ===== src/Runtime/Pool/Accounts.antt =====
-- The books of the pool: kept by grants, and restored when a grant is given back.
use parena.Prelude.{
  ℕ, zero, suc, ◌+◌, ◌-◌, ◌*◌, ◌^◌, ◌≤◌, ◌<◌, ◌≡◌, ◌≢◌, refl, ap, ◌∙◌, sym, Bool, true, false, List,
  [], ◌∷◌, ◌++◌, some, arith, length, replicate, length-append, length-replicate, get_or, set,
  length-set,
}
use parena.Runtime.Pool.{Pool, block_bytes, set_range, static_alloc, static_free}
use parena.Runtime.Pool.Grants.{
  Grants, set_range-run, count_used, count_used-append, count_used-replicate, static_alloc-Grants,
}

-- The tables have one size, a free cell has no run recorded, and the counters agree with the cells.
pub record IsAccounted (p : Pool) : Type 0 where
  pub sized : length p.run ≡ length p.used
  pub idle : (j : ℕ) → get_or p.used j true ≡ false → get_or p.run j 0 ≡ 0
  pub counted : p.in_use ≡ count_used p.used * block_bytes
  pub covered : p.in_use ≤ p.high

length-append_cells : (a b : List Bool) → length (a ++ b) ≡ length a + length b
length-append_cells = length-append

length-run :
    (n : ℕ) (b a : List Bool) (v : Bool)
    → length (b ++ (replicate n v ++ a)) ≡ length b + n + length a
length-run n b a v = omega (
  arith,
  length-append_cells b (replicate n v ++ a),
  length-append_cells (replicate n v) a,
  length-replicate {0} n v,
)

get_or-set_self : (r : List ℕ) (i v : ℕ) → i < length r → get_or (set r i v) i 0 ≡ v
get_or-set_self [] i v h = absurd (omega arith)
get_or-set_self (x ∷ r) zero v h = refl
get_or-set_self (x ∷ r) (suc i) v h = get_or-set_self r i v (omega arith)

get_or-set_ne : (r : List ℕ) (i j v : ℕ) → i ≢ j → get_or (set r i v) j 0 ≡ get_or r j 0
get_or-set_ne [] i j v h = refl
get_or-set_ne (x ∷ r) zero zero v h = absurd (h refl)
get_or-set_ne (x ∷ r) zero (suc j) v h = refl
get_or-set_ne (x ∷ r) (suc i) zero v h = refl
get_or-set_ne (x ∷ r) (suc i) (suc j) v h = get_or-set_ne r i j v (λ e. h (ap suc e))

set_restore : (r : List ℕ) (i v : ℕ) → get_or r i 0 ≡ 0 → set (set r i v) i 0 ≡ r
set_restore [] i v h = refl
set_restore (x ∷ r) zero v h = ap (λ y. y ∷ r) (sym h)
set_restore (x ∷ r) (suc i) v h = ap (λ l. x ∷ l) (set_restore r i v h)

-- The first cell of a run, and the cells that are free behind it.
get_or-run :
    (n : ℕ) (b a : List Bool) (v : Bool) (first : ℕ)
    → length b ≡ first
    → 0 < n
    → get_or (b ++ (replicate n v ++ a)) first true ≡ v
get_or-run zero b a v first e pos = absurd (omega arith)
get_or-run (suc n) [] a v zero e pos = refl
get_or-run (suc n) [] a v (suc i) e pos = absurd (omega arith)
get_or-run (suc n) (x ∷ b) a v zero e pos = absurd (omega arith)
get_or-run (suc n) (x ∷ b) a v (suc i) e pos = get_or-run (suc n) b a v i (omega arith) pos

-- A cell that is free once a run is used was free before.
stays_free :
    (n : ℕ) (b a : List Bool) (j : ℕ)
    → get_or (b ++ (replicate n true ++ a)) j true ≡ false
    → get_or (b ++ (replicate n false ++ a)) j true ≡ false
stays_free n (x ∷ b) a zero h = h
stays_free n (x ∷ b) a (suc j) h = stays_free n b a j h
stays_free zero [] a j h = h
stays_free (suc n) [] a zero h = cc
stays_free (suc n) [] a (suc j) h = stays_free n [] a j h

count_used-run :
    (n : ℕ) (b a : List Bool)
    → count_used (b ++ (replicate n true ++ a)) ≡ count_used (b ++ (replicate n false ++ a)) + n
count_used-run n b a = omega (
  arith,
  count_used-append b (replicate n true ++ a),
  count_used-append b (replicate n false ++ a),
  count_used-append (replicate n true) a,
  count_used-append (replicate n false) a,
  count_used-replicate n,
)

module _ {p q : Pool} {bytes first : ℕ} (g : Grants p bytes first q) (v : IsAccounted p) where
  first-lt : first < length p.run
  first-lt = omega (
    arith,
    v.sized,
    ap length g.was_free,
    length-run g.need g.before g.after false,
    g.starts,
    g.positive,
  )

  was_idle : get_or p.run first 0 ≡ 0
  was_idle = v.idle first (
      ap (λ l. get_or l first true) g.was_free
      ∙ get_or-run g.need g.before g.after false first g.starts g.positive)

  run_recorded : get_or q.run first 0 ≡ g.need
  run_recorded = ap (λ r. get_or r first 0) g.recorded ∙ get_or-set_self p.run first g.need first-lt

  not_first : (j : ℕ) → get_or q.used j true ≡ false → first ≢ j
  not_first j h e = cc (
    ap (λ l. get_or l first true) g.is_used
        ∙ get_or-run g.need g.before g.after true first g.starts g.positive,
    ap (λ k. get_or q.used k true) e,
  )

  free_before : (j : ℕ) → get_or q.used j true ≡ false → get_or p.used j true ≡ false
  free_before j h =
      ap (λ l. get_or l j true) g.was_free
      ∙ stays_free g.need g.before g.after j (sym (ap (λ l. get_or l j true) g.is_used) ∙ h)

  Grants-IsAccounted : IsAccounted q
  Grants-IsAccounted = record {
    sized = omega (
      arith,
      ap length g.recorded,
      length-set p.run first g.need,
      v.sized,
      ap length g.was_free,
      ap length g.is_used,
      length-run g.need g.before g.after false,
      length-run g.need g.before g.after true,
    );
    idle = λ j h.
        ap (λ r. get_or r j 0) g.recorded
        ∙ get_or-set_ne p.run first j g.need (not_first j h)
        ∙ v.idle j (free_before j h);
    counted = omega (
      arith,
      g.in_use_grows,
      v.counted,
      ap count_used g.was_free,
      ap count_used g.is_used,
      count_used-run g.need g.before g.after,
    );
    covered = g.high_covers.0;
  }

  freed_used : set_range q.used first g.need false ≡ p.used
  freed_used =
      ap (λ l. set_range l first g.need false) g.is_used
      ∙ set_range-run g.need g.before g.after true false first g.starts
      ∙ sym g.was_free

  freed_run : set q.run first 0 ≡ p.run
  freed_run = ap (λ r. set r first 0) g.recorded ∙ set_restore p.run first g.need was_idle

  Grants-static_free :
      static_free q first ≡ record { used = p.used; run = p.run; in_use = p.in_use; high = q.high }
  unfolding static_free
  Grants-static_free =
      rw (run_recorded, freed_used, freed_run)
        (let back : q.in_use - g.need * block_bytes ≡ p.in_use = omega (arith, g.in_use_grows) in
          rw back)

-- A grant keeps the books: the counter of bytes in use is that of the used cells, the high-water
-- mark covers it, and no run is recorded at a free cell.
pub static_alloc-IsAccounted :
    (p : Pool) (bytes : ℕ) {first : ℕ} {q : Pool}
    → bytes + block_bytes < 2 ^ 64
    → IsAccounted p
    → static_alloc p bytes ≡ some (first, q)
    → IsAccounted q
static_alloc-IsAccounted p bytes h v e = Grants-IsAccounted (static_alloc-Grants p bytes h e) v

-- Giving back what has just been granted restores the pool, all but its high-water mark.
pub static_free-static_alloc :
    (p : Pool) (bytes : ℕ) {first : ℕ} {q : Pool}
    → bytes + block_bytes < 2 ^ 64
    → IsAccounted p
    → static_alloc p bytes ≡ some (first, q)
    → static_free q first ≡ record { used = p.used; run = p.run; in_use = p.in_use; high = q.high }
static_free-static_alloc p bytes h v e = Grants-static_free (static_alloc-Grants p bytes h e) v
