-- ===== src/Runtime/Vec/Contents.antt =====
-- runtime/parena_runtime.h: a `Vec` holds the list of the slots that have been pushed.
use parena.Prelude.{
  doubled_enough, ℕ, zero, suc, ◌+◌, ◌-◌, ◌*◌, ◌%◌, ◌^◌, ◌≤◌, ◌<◌, ◌≡◌, refl, ap, [], ◌∷◌, List,
  ◌++◌, Option, none, some, ltb, ◌==◌, if◌then◌else◌, if_cases, take, set, get_or, get_elem?,
  replicate, length, arith, length-append, length-replicate,
}
use parena.Runtime.Arena.Provider.{Provider}
use parena.Runtime.Arena.Alloc.{Arena, Pointer, arena_alloc_aligned}
use parena.Runtime.Vec.{
  Vec, Item, pointer, staged, new_capacity, regrown, vec_is_staged, bits, vec_store, finish_reserve,
  vec_reserve_,
}

abbrev pub contents : Vec → List ℕ
contents v = take v.count v.items

-- The slots in use lie in the array.
pub record IsVec (v : Vec) : Type 0 where
  pub fits : v.count ≤ v.capacity
  pub slots : length v.items ≡ v.capacity

module _ {ℓ} {A : Type ℓ} where
  pub take-set_end :
      (xs : List A) (n : ℕ) (x : A)
      → n < length xs
      → take (suc n) (set xs n x) ≡ take n xs ++ (x ∷ [])
  take-set_end [] n x h = absurd (omega (arith, h))
  take-set_end (y ∷ xs) zero x h = refl
  take-set_end (y ∷ xs) (suc n) x h = ap (λ l. y ∷ l) (take-set_end xs n x (omega (arith, h)))

  length-take : (n : ℕ) (xs : List A) → n ≤ length xs → length (take n xs) ≡ n
  length-take zero xs h = refl
  length-take (suc n) [] h = absurd (omega (arith, h))
  length-take (suc n) (x ∷ xs) h = ap suc (length-take n xs (omega (arith, h)))

  take-append : (n : ℕ) (xs ys : List A) → length xs ≡ n → take n (xs ++ ys) ≡ xs
  take-append zero [] ys h = refl
  take-append zero (x ∷ xs) ys h = absurd (omega (arith, h))
  take-append (suc n) [] ys h = absurd (omega (arith, h))
  take-append (suc n) (x ∷ xs) ys h = ap (λ l. x ∷ l) (take-append n xs ys (omega (arith, h)))

  pub take-set : (n i : ℕ) (xs : List A) (x : A) → take n (set xs i x) ≡ set (take n xs) i x
  take-set zero i xs x = refl
  take-set (suc n) i [] x = refl
  take-set (suc n) zero (y ∷ xs) x = refl
  take-set (suc n) (suc i) (y ∷ xs) x = ap (λ l. y ∷ l) (take-set n i xs x)

  pub take-take : (m n : ℕ) (xs : List A) → m ≤ n → take m (take n xs) ≡ take m xs
  take-take zero n xs h = refl
  take-take (suc m) zero xs h = absurd (omega (arith, h))
  take-take (suc m) (suc n) [] h = refl
  take-take (suc m) (suc n) (x ∷ xs) h = ap (λ l. x ∷ l) (take-take m n xs (omega (arith, h)))

  pub get-take :
      (i n : ℕ) (xs : List A) (d : A)
      → i < n
      → n ≤ length xs
      → get_elem? (take n xs) i ≡ some (get_or xs i d)
  get-take i zero xs d h k = absurd (omega (arith, h))
  get-take i (suc n) [] d h k = absurd (omega (arith, k))
  get-take zero (suc n) (x ∷ xs) d h k = refl
  get-take (suc i) (suc n) (x ∷ xs) d h k = get-take i n xs d (omega (arith, h)) (omega (arith, k))

pub new_capacity_enough : (c want : ℕ) → want ≤ 2 ^ 63 → want ≤ new_capacity c want
new_capacity_enough c want h = doubled_enough (if c == 0 then 8 else c) want (positive c) h
  where
    positive : (c : ℕ) → 1 ≤ (if c == 0 then 8 else c)
    positive c = ground arith

pub vec_store-count : (v : Vec) (idx : ℕ) (item : Item) → Vec.count (vec_store v idx item) ≡ v.count
unfolding vec_store vec_is_staged
vec_store-count v idx (pointer p) = refl
vec_store-count v idx staged = refl

pub vec_store-items :
    (v : Vec) (idx : ℕ) (item : Item)
    → Vec.items (vec_store v idx item) ≡ set v.items idx (bits v item)
unfolding vec_store vec_is_staged
vec_store-items v idx (pointer p) = refl
vec_store-items v idx staged = refl

pub vec_store-capacity :
    (v : Vec) (idx : ℕ) (item : Item) → Vec.capacity (vec_store v idx item) ≡ v.capacity
unfolding vec_store vec_is_staged
vec_store-capacity v idx (pointer p) = refl
vec_store-capacity v idx staged = refl

-- What a reserve leaves: the same contents and room for `want` slots.
pub record Reserved (v : Vec) (want : ℕ) (w : Vec) : Type 0 where
  pub IsVec_after : IsVec w
  pub room : want ≤ w.capacity
  pub contents_same : contents w ≡ contents v
  pub count_same : w.count ≡ v.count
  pub tmp_same : w.tmp ≡ v.tmp

module _ (P : Provider) (unset : ℕ) where
  open P use {State}

  abbrev pub AllReserved : Vec → ℕ → Option (Vec × Arena × State) → Type 0
  AllReserved v want none = Unit
  AllReserved v want (some (w, a, s)) = Reserved v want w

  regrown-Reserved :
      (v : Vec) (want cap' : ℕ)
      → IsVec v
      → v.capacity < want
      → want ≤ cap'
      → Reserved v want (regrown unset cap' v)
  regrown-Reserved v want cap' ok l e =
      let f = IsVec.fits ok in
      let s = IsVec.slots ok in
      let k : length (take v.count v.items) ≡ v.count =
        length-take v.count v.items (omega (arith, f, s)) in
      let n = length-append (take v.count v.items) (replicate (cap' - v.count) unset) in
      let m = length-replicate (cap' - v.count) unset in
      record {
        IsVec_after = record {
          fits = omega (arith, f, l, e);
          slots = omega (arith, f, l, e, k, n, m);
        };
        room = e;
        contents_same =
            take-append v.count (take v.count v.items) (replicate (cap' - v.count) unset) k;
        count_same = refl;
        tmp_same = refl;
      }

  finish_reserve-Reserved :
      (v : Vec) (want cap' : ℕ) (r : Option (Pointer × Arena × State))
      → IsVec v
      → v.capacity < want
      → want ≤ cap'
      → AllReserved v want (finish_reserve P unset cap' v r)
  finish_reserve-Reserved v want cap' none ok l e = tt
  finish_reserve-Reserved v want cap' (some (p, a, s)) ok l e = regrown-Reserved v want cap' ok l e

  pub vec_reserve_-Reserved :
      (v : Vec) (a : Arena) (s : State) (want : ℕ)
      → IsVec v
      → want ≤ 2 ^ 63
      → AllReserved v want (vec_reserve_ P unset v a s want)
  unfolding vec_reserve_
  vec_reserve_-Reserved v a s want ok h =
      let cap' = new_capacity v.capacity want in
      if_cases (AllReserved v want) (ltb v.capacity want)
        (λ l.
          finish_reserve-Reserved v want cap' (arena_alloc_aligned P a s (cap' * 8 % 2 ^ 64) 64) ok
            (ground arith) (new_capacity_enough v.capacity want h))
        (λ l. record {
          IsVec_after = ok;
          room = ground arith;
          contents_same = refl;
          count_same = refl;
          tmp_same = refl;
        })

-- What a push leaves: one more slot behind the others.
pub record Pushed (v : Vec) (item : Item) (w : Vec) : Type 0 where
  pub IsVec_after : IsVec w
  pub contents_after : contents w ≡ contents v ++ (bits v item ∷ [])
  pub count_after : w.count ≡ v.count + 1
