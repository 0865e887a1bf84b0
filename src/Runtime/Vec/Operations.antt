-- ===== src/Runtime/Vec/Operations.antt =====
-- runtime/parena_runtime.h: the operations of `Vec` on the list that it holds.
use parena.Prelude.{
  ℕ, zero, suc, ◌+◌, ◌≤◌, ◌<◌, ◌^◌, ◌≡◌, ◌∙◌, refl, ap, sym, Bool, true, false, [], ◌∷◌, List, ◌++◌,
  Option, none, some, ltb, if◌then◌else◌, if_cases, take, set, get_or, get_elem?, length, arith,
  length-set, ℤ, pos, negsuc, in_range, at_least_zero, ltb→lt, Bool-cases, inl, inr, ◌⊎◌,
}
use parena.Runtime.Arena.Provider.{Provider}
use parena.Runtime.Arena.Alloc.{Arena}
use parena.Runtime.Vec.{
  Vec, Item, pointer, staged, Got, null, slot_address, stored, bits, vec_store, vec_get, got,
  stored_at, vec_set_at, vec_truncate, vec_reserve_, push_stored, vec_push,
}
use parena.Runtime.Vec.Contents.{
  contents, IsVec, Reserved, AllReserved, vec_reserve_-Reserved, Pushed, take-set_end, take-set,
  take-take, get-take, vec_store-count, vec_store-items, vec_store-capacity,
}

bits_same : (v w : Vec) (item : Item) → w.tmp ≡ v.tmp → bits w item ≡ bits v item
bits_same v w (pointer p) e = refl
bits_same v w staged e = e

stored_last :
    (v w : Vec) (item : Item)
    → Reserved v (v.count + 1) w
    → Pushed v item (record (vec_store w w.count item) { count = w.count + 1 })
stored_last v w item r =
    let ok = Reserved.IsVec_after r in
    let room = Reserved.room r in
    let c = Reserved.count_same r in
    let slots = IsVec.slots ok in
    let items = vec_store-items w w.count item in
    let cap_same = vec_store-capacity w w.count item in
    let e = ap length items in
    let n = length-set w.items w.count (bits w item) in
    let next : w.count + 1 ≡ suc w.count = omega arith in
    record {
      IsVec_after = record {
        fits = omega (arith, room, c, cap_same);
        slots = omega (arith, e, n, slots, cap_same);
      };
      contents_after =
          ap (λ xs. take (w.count + 1) xs) items
          ∙ ap (λ k. take k (set w.items w.count (bits w item))) next
          ∙ take-set_end w.items w.count (bits w item) (omega (arith, room, c, slots))
          ∙ ap (λ xs. xs ++ (bits w item ∷ [])) (Reserved.contents_same r)
          ∙ ap (λ b. contents v ++ (b ∷ [])) (bits_same v w item (Reserved.tmp_same r));
      count_after = ap (λ n. n + 1) c;
    }

module _ (P : Provider) (unset : ℕ) where
  open P use {State}

  abbrev AllPushed : Vec → Item → Option (Vec × Arena × State) → Type 0
  AllPushed v item none = Unit
  AllPushed v item (some (w, a, s)) = Pushed v item w

  push_stored-Pushed :
      (v : Vec) (item : Item) (r : Option (Vec × Arena × State))
      → AllReserved P unset v (v.count + 1) r
      → AllPushed v item (push_stored P unset item r)
  push_stored-Pushed v item none h = tt
  push_stored-Pushed v item (some (w, a, s)) h = stored_last v w item h

  push-AllPushed :
      (v : Vec) (a : Arena) (s : State) (item : Item)
      → IsVec v
      → v.count < 2 ^ 63
      → AllPushed v item (vec_push P unset v a s item)
  unfolding vec_push
  push-AllPushed v a s item ok l =
      push_stored-Pushed v item (vec_reserve_ P unset v a s (v.count + 1))
        (vec_reserve_-Reserved P unset v a s (v.count + 1) ok (omega (arith, l)))

-- A push that the arena has memory for puts the item behind the slots in use, which keep their
-- contents whether the array grows or not, and the slots in use stay inside the array.
pub vec_push-Pushed :
    (P : Provider) (unset : ℕ) (v : Vec) (a : Arena) (s : Provider.State P) (item : Item) {w : Vec}
    {b : Arena} {t : Provider.State P}
    → IsVec v
    → v.count < 2 ^ 63
    → vec_push P unset v a s item ≡ some (w, b, t)
    → Pushed v item w
vec_push-Pushed P unset v a s item ok l e = rw e at (push-AllPushed P unset v a s item ok l)

-- What an index answers, from the list.
abbrev pub looked_up : Bool → ℤ → Option ℕ → Got
looked_up scalar idx none = null
looked_up true (pos i) (some x) = slot_address i
looked_up true (negsuc i) (some x) = null
looked_up false idx (some x) = stored x

-- The list at an index of either sign.
abbrev pub at_index : List ℕ → ℤ → Option ℕ
at_index xs (pos i) = get_elem? xs i
at_index xs (negsuc i) = none

get-beyond : (i n : ℕ) (xs : List ℕ) → n ≤ i → get_elem? (take n xs) i ≡ none
get-beyond i zero xs h = refl
get-beyond i (suc n) [] h = refl
get-beyond zero (suc n) (x ∷ xs) h = absurd (omega (arith, h))
get-beyond (suc i) (suc n) (x ∷ xs) h = get-beyond i n xs (omega (arith, h))

in_range-below : (i n : ℕ) → ltb i n ≡ true → in_range (pos i) n ≡ some i
unfolding in_range
in_range-below i n l = rw l

in_range-beyond : (i n : ℕ) → ltb i n ≡ false → in_range (pos i) n ≡ none
unfolding in_range
in_range-beyond i n l = rw l

got-some :
    (v : Vec) (i : ℕ) → got v (some i) ≡ looked_up v.scalar (pos i) (some (get_or v.items i 0))
got-some v i = go v.scalar
  where
    go :
        (b : Bool)
        → (if b then slot_address i else stored (get_or v.items i 0))
          ≡ looked_up b (pos i) (some (get_or v.items i 0))
    go true = refl
    go false = refl

-- `vec_get` answers NULL at an index outside the list, negative ones included, and otherwise the
-- stored pointer, or, in a vector of scalars, the address of the slot.
pub vec_get-at_index :
    (v : Vec) (idx : ℤ)
    → IsVec v
    → vec_get v idx ≡ looked_up v.scalar idx (at_index (contents v) idx)
unfolding vec_get
vec_get-at_index v (negsuc i) ok = unfold in_range in refl
vec_get-at_index v (pos i) ok = go (Bool-cases (ltb i v.count))
  where
    go :
        (ltb i v.count ≡ true) ⊎ (ltb i v.count ≡ false)
        → got v (in_range (pos i) v.count) ≡ looked_up v.scalar (pos i) (get_elem? (contents v) i)
    go (inl l) =
        let e =
          get-take i v.count v.items 0 (ltb→lt i v.count l)
            (omega (arith, IsVec.fits ok, IsVec.slots ok)) in
        ap (got v) (in_range-below i v.count l)
        ∙ got-some v i
        ∙ ap (looked_up v.scalar (pos i)) (sym e)
    go (inr n) =
        ap (got v) (in_range-beyond i v.count n)
        ∙ ap (looked_up v.scalar (pos i)) (sym (get-beyond i v.count v.items (ground arith)))

-- The list with a slot written; an index outside it writes nothing.
abbrev pub written : List ℕ → ℤ → ℕ → List ℕ
written xs (pos i) x = set xs i x
written xs (negsuc i) x = xs

set-beyond : (xs : List ℕ) (i x : ℕ) → length xs ≤ i → set xs i x ≡ xs
set-beyond [] i x h = refl
set-beyond (y ∷ xs) zero x h = absurd (omega (arith, h))
set-beyond (y ∷ xs) (suc i) x h = ap (λ l. y ∷ l) (set-beyond xs i x (omega (arith, h)))

length-take_le : (n : ℕ) (xs : List ℕ) → length (take n xs) ≤ n
length-take_le zero xs = omega arith
length-take_le (suc n) [] = omega arith
length-take_le (suc n) (x ∷ xs) = omega (arith, length-take_le n xs)

-- A vector with a well-formed array and a given list.
pub record Holds (w : Vec) (xs : List ℕ) : Type 0 where
  pub IsVec_after : IsVec w
  pub contents_after : contents w ≡ xs

-- `vec_set_at_` writes one slot of the list, and changes nothing at an index outside it.
pub vec_set_at-Holds :
    (v : Vec) (idx : ℤ) (item : Item)
    → IsVec v
    → Holds (vec_set_at v idx item) (written (contents v) idx (bits v item))
unfolding vec_set_at
vec_set_at-Holds v (negsuc i) item ok =
    unfold in_range in record { IsVec_after = ok; contents_after = refl }
vec_set_at-Holds v (pos i) item ok = go (Bool-cases (ltb i v.count))
  where
    stored_ok : Holds (vec_store v i item) (set (contents v) i (bits v item))
    stored_ok =
        let c = vec_store-count v i item in
        let s = vec_store-items v i item in
        let k = vec_store-capacity v i item in
        let e = ap length s in
        record {
          IsVec_after = record {
            fits = omega (arith, c, k, IsVec.fits ok);
            slots = omega (arith, e, k, IsVec.slots ok, length-set v.items i (bits v item));
          };
          contents_after =
              ap (λ n. take n (Vec.items (vec_store v i item))) c
              ∙ ap (take v.count) s
              ∙ take-set v.count i v.items (bits v item);
        }

    go :
        (ltb i v.count ≡ true) ⊎ (ltb i v.count ≡ false)
        → Holds (stored_at v item (in_range (pos i) v.count)) (set (contents v) i (bits v item))
    go (inl l) = rw (in_range-below i v.count l) stored_ok
    go (inr n) = rw (in_range-beyond i v.count n) (record {
      IsVec_after = ok;
      contents_after =
          let k = length-take_le v.count v.items in
          sym (set-beyond (contents v) i (bits v item) (ground arith));
    })

-- `vec_truncate_` keeps the first slots of the list, and never adds one.
pub vec_truncate-Holds :
    (v : Vec) (n : ℤ) → IsVec v → Holds (vec_truncate v n) (take (at_least_zero n) (contents v))
unfolding vec_truncate
vec_truncate-Holds v n ok =
    if_cases (λ w. Holds w (take (at_least_zero n) (contents v))) (ltb (at_least_zero n) v.count)
      (λ l. record {
        IsVec_after = record {
          fits = omega (arith, ltb→lt (at_least_zero n) v.count l, IsVec.fits ok);
          slots = IsVec.slots ok;
        };
        contents_after = sym (
            take-take (at_least_zero n) v.count v.items
              (omega (arith, ltb→lt (at_least_zero n) v.count l)));
      })
      (λ l. record {
        IsVec_after = ok;
        contents_after = sym (
            take-all (at_least_zero n) (contents v)
              (let k = length-take_le v.count v.items in ground arith));
      })
  where
    take-all : (n : ℕ) (xs : List ℕ) → length xs ≤ n → take n xs ≡ xs
    take-all zero [] h = refl
    take-all zero (x ∷ xs) h = absurd (omega (arith, h))
    take-all (suc n) [] h = refl
    take-all (suc n) (x ∷ xs) h = ap (λ l. x ∷ l) (take-all n xs (omega (arith, h)))
