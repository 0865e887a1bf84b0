-- ===== src/CompilerArena/Contents.antt =====
-- src/arena.c: the bytes of a block, `memcpy` into them, and what is read back.
use parena.Prelude.{
  zero, take, drop, ℕ, suc, ◌+◌, ◌≤◌, ◌≡◌, refl, ap, [], ◌∷◌, arith, Bytes, length,
}

-- `memcpy` to an offset; what would lie behind the end is not written.
unfoldable pub splice : Bytes → ℕ → Bytes → Bytes
splice xs zero [] = xs
splice [] zero (b ∷ bs) = []
splice (x ∷ xs) zero (b ∷ bs) = b ∷ splice xs zero bs
splice [] (suc o) bs = []
splice (x ∷ xs) (suc o) bs = x ∷ splice xs o bs

abbrev pub read : ℕ → ℕ → Bytes → Bytes
read o n xs = take n (drop o xs)

pub length-splice : (xs : Bytes) (o : ℕ) (bs : Bytes) → length (splice xs o bs) ≡ length xs
unfolding splice
length-splice xs zero [] = refl
length-splice [] zero (b ∷ bs) = refl
length-splice (x ∷ xs) zero (b ∷ bs) = ap suc (length-splice xs zero bs)
length-splice [] (suc o) bs = refl
length-splice (x ∷ xs) (suc o) bs = ap suc (length-splice xs o bs)

-- What is written inside is read back.
pub read-splice :
    (xs : Bytes) (o : ℕ) (bs : Bytes)
    → o + length bs ≤ length xs
    → read o (length bs) (splice xs o bs) ≡ bs
unfolding splice
read-splice xs zero [] h = refl
read-splice [] zero (b ∷ bs) h = absurd (omega (arith, h))
read-splice (x ∷ xs) zero (b ∷ bs) h = ap (λ t. b ∷ t) (read-splice xs zero bs (omega (arith, h)))
read-splice [] (suc o) bs h = absurd (omega (arith, h))
read-splice (x ∷ xs) (suc o) bs h = read-splice xs o bs (omega (arith, h))

-- What ends before it is not touched.
pub read-splice_before :
    (xs : Bytes) (o : ℕ) (bs : Bytes) (p n : ℕ)
    → p + n ≤ o
    → read p n (splice xs o bs) ≡ read p n xs
unfolding splice
read-splice_before xs zero bs zero zero h = refl
read-splice_before xs zero bs zero (suc n) h = absurd (omega (arith, h))
read-splice_before xs zero bs (suc p) n h = absurd (omega (arith, h))
read-splice_before [] (suc o) bs p n h = refl
read-splice_before (x ∷ xs) (suc o) bs zero zero h = refl
read-splice_before (x ∷ xs) (suc o) bs zero (suc n) h =
    ap (λ t. x ∷ t) (read-splice_before xs o bs zero n (omega (arith, h)))
read-splice_before (x ∷ xs) (suc o) bs (suc p) n h =
    read-splice_before xs o bs p n (omega (arith, h))
