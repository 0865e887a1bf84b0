-- ===== src/Runtime/Buffers/Contents.antt =====
-- runtime/parena_runtime.h: what is read of a `Bytes` after a write, and strings through it.
use parena.Prelude.{
  to_int, leb, at_least_zero, drop, length-replicate, ◌^◌, ◌%◌, ℕ, zero, suc, ◌+◌, ◌-◌, ◌≤◌, ◌<◌,
  ◌≡◌, ◌≢◌, ◌∙◌, refl, ap, true, List, [], ◌∷◌, ◌++◌, Option, none, some, ltb, ◌==◌, if◌then◌else◌,
  length, take, set, get_or, replicate, ℤ, pos, negsuc, in_range, c_str, arith, Bool-cases, inl,
  inr, if_cases,
}
use mathlib.Core.Path.{subst}
use parena.Runtime.Arena.Provider.{Provider}
use parena.Runtime.Arena.Alloc.{Arena, Pointer, arena_alloc}
use parena.Runtime.Buffers.{
  Filled, exhausted, overrun, filled, copied, bytes_alloc, Buffer, bytes_get, to_byte,
  byte_or_minus_one, bytes_set, with_data, bytes_from_string, bytes_to_string_lossy, terminated,
}

-- The length lies in the buffer.
abbrev pub IsBuffer : Buffer → Type 0
IsBuffer b = b.len ≤ length b.bytes

get-set : (xs : List ℕ) (i x : ℕ) → i < length xs → get_or (set xs i x) i 0 ≡ x
get-set [] i x h = absurd (omega (arith, h))
get-set (y ∷ xs) zero x h = refl
get-set (y ∷ xs) (suc i) x h = get-set xs i x (omega (arith, h))

get-set_other : (xs : List ℕ) (i j x : ℕ) → j ≢ i → get_or (set xs i x) j 0 ≡ get_or xs j 0
get-set_other [] i j x h = refl
get-set_other (y ∷ xs) zero zero x h = absurd (h refl)
get-set_other (y ∷ xs) zero (suc j) x h = refl
get-set_other (y ∷ xs) (suc i) zero x h = refl
get-set_other (y ∷ xs) (suc i) (suc j) x h = get-set_other xs i j x (λ e. h (ap suc e))

in_range-below : (i n : ℕ) → i < n → in_range (pos i) n ≡ some i
unfolding in_range
in_range-below i n l = let t : ltb i n ≡ true = ground arith in rw t

-- A byte written inside the buffer is read back, modulo 256; every other index, inside the buffer or
-- not, reads as before.
pub bytes_get-set :
    (b : Buffer) (i : ℕ) (value : ℤ)
    → IsBuffer b
    → i < b.len
    → (bytes_get (bytes_set b (pos i) value) (pos i) ≡ pos (to_byte value))
      × ((j : ℤ) → j ≢ pos i → bytes_get (bytes_set b (pos i) value) j ≡ bytes_get b j)
unfolding bytes_get bytes_set
bytes_get-set b i value ok l =
    let r = in_range-below i b.len l in
    (
      rw r (rw r (ap pos (get-set b.bytes i (to_byte value) (omega (arith, ok, l))))),
      λ j n. rw r (other j n),
    )
  where
    other :
        (j : ℤ)
        → j ≢ pos i
        → byte_or_minus_one (set b.bytes i (to_byte value)) (in_range j b.len)
          ≡ byte_or_minus_one b.bytes (in_range j b.len)
    other (negsuc j) n = unfold in_range in refl
    other (pos j) n =
        unfold in_range in
        (if_cases
          (λ o. byte_or_minus_one (set b.bytes i (to_byte value)) o ≡ byte_or_minus_one b.bytes o)
          (ltb j b.len)
          (λ _. ap pos (get-set_other b.bytes i j (to_byte value) (λ e. n (ap pos e)))) (λ _. refl))

c_str_idem : (s : List ℕ) → c_str (c_str s) ≡ c_str s
unfolding c_str
c_str_idem [] = refl
c_str_idem (c ∷ cs) = elim (Bool-cases (c == 0)) [
  | inl e ↦ rw e
  | inr n ↦ rw n (rw n (ap (λ r. c ∷ r) (c_str_idem cs)))
]

take-append : (xs ys : List ℕ) → take (length xs) (xs ++ ys) ≡ xs
take-append [] ys = refl
take-append (x ∷ xs) ys = ap (λ r. x ∷ r) (take-append xs ys)

module _ (P : Provider) (unset : ℕ) where
  open P use {State}

  -- What holds of the text that a conversion gives.
  abbrev pub TextIs : List ℕ → Option (List ℕ × Arena × State) → Type 0
  TextIs text none = Unit
  TextIs text (some (out, a, s)) = out ≡ text

  terminated-TextIs :
      (out : List ℕ) (r : Option (Pointer × Arena × State))
      → TextIs (out ++ (0 ∷ [])) (terminated P unset out r)
  terminated-TextIs out none = tt
  terminated-TextIs out (some (p, a, s)) = refl

  abbrev pub AllHold : List ℕ → Filled State → Type 0
  AllHold text exhausted = Unit
  AllHold text overrun = ⊥
  AllHold text (filled b a s) = take b.len b.bytes ≡ text

  fits-AllHold :
      (text room : List ℕ) (a : Arena) (s : State)
      → length text ≤ length room
      → AllHold text (copied text (some (record { bytes = room; len = length text }, a, s)))
  fits-AllHold text room a s h =
      let fits : leb (length text) (length room) ≡ true = ground arith in
      rw fits (take-append text (drop (length text) room))

  copied-AllHold :
      (text : List ℕ) (r : Option (Pointer × Arena × State))
      → AllHold text (copied text (with_data P unset [] (length text) r))
  copied-AllHold text none = tt
  copied-AllHold text (some (p, a, s)) =
      let size = (if length text == 0 then 1 else length text) - 0 in
      let e : length (replicate size unset) ≡ size = length-replicate size unset in
      fits-AllHold text (replicate size unset) a s (ground (arith, e))

  to_string :
      (b : Buffer) (a : Arena) (s : State)
      → TextIs (c_str (take b.len b.bytes) ++ (0 ∷ [])) (bytes_to_string_lossy P unset b a s)
  unfolding bytes_to_string_lossy
  to_string b a s =
      terminated-TextIs (c_str (take b.len b.bytes))
        (arena_alloc P a s (length (c_str (take b.len b.bytes)) + 1))

  to_int-pos : (n : ℕ) → n < 2 ^ 31 → to_int n ≡ pos n
  unfolding to_int
  to_int-pos n h =
      let e : n % 2 ^ 32 ≡ n = omega arith in
      let t : ltb n (2 ^ 31) ≡ true = ground arith in rw (e, t) refl

  from_string :
      (a : Arena) (s : State) (text : List ℕ)
      → length (c_str text) < 2 ^ 31
      → AllHold (c_str text) (bytes_from_string P unset a s text)
  unfolding bytes_from_string bytes_alloc at_least_zero
  from_string a s text h =
      let len = length (c_str text) in
      rw (to_int-pos len h)
        (copied-AllHold (c_str text) (arena_alloc P a s (if len == 0 then 1 else len)))

  -- What comes back of a string from the buffer that it was copied to, with other allocations between.
  abbrev pub ComesBack : List ℕ → Arena → State → Filled State → Type 0
  ComesBack text b t exhausted = Unit
  ComesBack text b t overrun = ⊥
  ComesBack text b t (filled buffer a s) = TextIs text (bytes_to_string_lossy P unset buffer b t)

  held-ComesBack :
      (text : List ℕ) (b : Arena) (t : State) (r : Filled State)
      → AllHold (c_str text) r
      → ComesBack (c_str text ++ (0 ∷ [])) b t r
  held-ComesBack text b t exhausted h = tt
  held-ComesBack text b t overrun h = h
  held-ComesBack text b t (filled buffer a s) h =
      subst (λ x. TextIs (x ++ (0 ∷ [])) (bytes_to_string_lossy P unset buffer b t))
        (ap c_str h ∙ c_str_idem text) (to_string buffer b t)

-- A string of less than 2 ^ 31 bytes that is copied to a buffer is never written past it, and comes
-- back as it was, up to its first NUL and with one behind it, whatever is allocated in between; only a
-- lack of memory can prevent it.
pub bytes_to_string-from_string :
    (P : Provider) (unset : ℕ) (a b : Arena) (s t : Provider.State P) (text : List ℕ)
    → length (c_str text) < 2 ^ 31
    → ComesBack P unset (c_str text ++ (0 ∷ [])) b t (bytes_from_string P unset a s text)
bytes_to_string-from_string P unset a b s t text h =
    held-ComesBack P unset text b t (bytes_from_string P unset a s text)
      (from_string P unset a s text h)
