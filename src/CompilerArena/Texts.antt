-- ===== src/CompilerArena/Texts.antt =====
-- src/arena.c: the texts that the arena holds stay what they are, whatever is allocated later.
use parena.Prelude.{
  zero, drop, some-inj, none-some, ==_iff, ◌^◌, ℕ, suc, ◌+◌, ◌-◌, ◌%◌, ◌<◌, ◌≤◌, ◌≡◌, inl, inr,
  refl, ap, true, false, [], ◌∷◌, Option, none, some, arith, ltb, ◌==◌, if◌then◌else◌, Bytes,
  length, Bool-cases,
}
use parena.CompilerArena.Contents.{read}
use parena.CompilerArena.Alloc.{
  Block, Arena, Pointer, align_up, min_capacity, block_capacity, bump_head,
}

abbrev pub block_at : Arena → ℕ → Option Block
block_at [] k = none
block_at (b ∷ bs) k = if k == length bs then some b else block_at bs k

pub record BlockOk (b : Block) : Type 0 where
  pub fits : b.used ≤ length b.content
  pub aligned : b.used % 8 ≡ 0
  pub small : length b.content < 2 ^ 63

abbrev pub AllOk : Arena → Type 0
AllOk [] = Unit
AllOk (b ∷ bs) = BlockOk b × AllOk bs

-- The text lies at the pointer, in the part of a block that is used.
pub data Holds (a : Arena) (p : Pointer) (text : Bytes) : Type 0 where
  holds :
      (b : Block)
      → block_at a p.block ≡ some b
      → p.offset + length text ≤ b.used
      → read p.offset (length text) b.content ≡ text
      → Holds a p text

-- What an allocation of `size` bytes has made of the arena `a`: the bytes lie in the head block,
-- aligned, behind every text that the block holds, and no text is lost.
pub record Granted (a : Arena) (size : ℕ) (p : Pointer) (a' : Arena) : Type 0 where
  pub head : Block
  pub others : Arena
  pub is_head : a' ≡ head ∷ others
  pub in_head : p.block ≡ length others
  pub inside : p.offset + size ≤ head.used
  pub aligned : p.offset % 8 ≡ 0
  pub all_ok : AllOk a'
  pub keeps : (q : Pointer) (t : Bytes) → Holds a q t → Holds a' q t
  pub clear :
      (q : Pointer) (t : Bytes) → Holds a q t → q.block ≡ p.block → q.offset + length t ≤ p.offset

pub align_up_bounds :
    (n : ℕ) → n < 2 ^ 62 → (n ≤ align_up n) × ((align_up n < n + 8) × (align_up n % 8 ≡ 0))
unfolding align_up
align_up_bounds n h = omega (arith, h)

block_at-lt : (a : Arena) (k : ℕ) {b : Block} → block_at a k ≡ some b → k < length a
block_at-lt [] k e = absurd (none-some e)
block_at-lt (c ∷ cs) k e = elim (Bool-cases (k == length cs)) [
  | inl h ↦ omega (arith, (==_iff k (length cs)).0 h)
  | inr h ↦ omega (arith, block_at-lt cs k (rw h at e))
]

-- A block in front changes none behind it.
in_front : (c : Block) (a : Arena) (q : Pointer) (t : Bytes) → Holds a q t → Holds (c ∷ a) q t
in_front c a q t (holds b e i r) =
    let lt = block_at-lt a q.block e in
    let ne : (q.block == length a) ≡ false = ground (arith, lt) in holds b (rw ne e) i r

-- More bytes of the head block are used.
bumped :
    (b : Block) (bs : Arena) (u : ℕ) (q : Pointer) (t : Bytes)
    → b.used ≤ u
    → Holds (b ∷ bs) q t
    → Holds (record b { used = u } ∷ bs) q t
bumped b bs u q t h (holds c e i r) = elim (Bool-cases (q.block == length bs)) [
  | inl y ↦
      let s = some-inj (rw y at e) in
      holds (record b { used = u }) (rw y refl) (omega (arith, ap (λ x. x.used) s, h, i))
        (rw (ap (λ x. x.content) s) r)
  | inr n ↦ holds c (rw n (rw n at e)) i r
]

pub bump_room :
    (b : Block) (bs : Arena) (size : ℕ)
    → size < 2 ^ 62
    → AllOk (b ∷ bs)
    → ltb (length b.content) ((b.used + align_up size) % 2 ^ 64) ≡ false
    → Granted (b ∷ bs) size (bump_head (align_up size) b bs).0 (bump_head (align_up size) b bs).1
bump_room b bs size h ok room =
    let u = align_up_bounds size h in
    let sum : (b.used + align_up size) % 2 ^ 64 ≡ b.used + align_up size =
      omega (arith, u, h, ok.0.fits, ok.0.small) in
    record {
      head = record b { used = (b.used + align_up size) % 2 ^ 64 };
      others = bs;
      is_head = refl;
      in_head = refl;
      inside = omega (arith, u, sum);
      aligned = ok.0.aligned;
      all_ok = (
        record {
          fits = ground arith;
          aligned = omega (arith, u, sum, ok.0.aligned);
          small = ok.0.small;
        },
        ok.1,
      );
      keeps = λ q t k. bumped b bs _ q t (omega (arith, sum)) k;
      clear = λ q t k e. behind q t k e;
    }
  where
    behind :
        (q : Pointer) (t : Bytes)
        → Holds (b ∷ bs) q t
        → q.block ≡ length bs
        → q.offset + length t ≤ b.used
    behind q t (holds c y i r) e =
        let same : (q.block == length bs) ≡ true = (==_iff q.block (length bs)).1 e in
        omega (arith, i, ap (λ x. x.used) (some-inj (rw same at y)))

pub block_capacity_bound : (n : ℕ) → (n ≤ block_capacity n) × (block_capacity n ≤ n + min_capacity)
unfolding block_capacity
block_capacity_bound n = ground arith

pub length-drop : (n : ℕ) (xs : Bytes) → length (drop n xs) ≡ length xs - n
length-drop zero xs = omega arith
length-drop (suc n) [] = omega arith
length-drop (suc n) (x ∷ xs) = omega (arith, length-drop n xs)

pub bump_fresh :
    (a : Arena) (content : Bytes) (size : ℕ)
    → size < 2 ^ 62
    → AllOk a
    → length content ≡ block_capacity (align_up size)
    → let b : Block = record { used = 0; content = content } in
      Granted a size (bump_head (align_up size) b a).0 (bump_head (align_up size) b a).1
unfolding block_capacity
bump_fresh a content size h ok len =
    let u = align_up_bounds size h in
    let b : Block = record { used = 0; content = content } in
    record {
      head = record b { used = (0 + align_up size) % 2 ^ 64 };
      others = a;
      is_head = refl;
      in_head = refl;
      inside = omega (arith, u, h);
      aligned = omega arith;
      all_ok =
          (record { fits = ground arith; aligned = omega (arith, u, h); small = ground arith }, ok);
      keeps = λ q t k. in_front _ a q t k;
      clear = λ q t k e. absurd (apart q t k e);
    }
  where
    apart : (q : Pointer) (t : Bytes) → Holds a q t → q.block ≡ length a → ⊥
    apart q t (holds c y i r) e = omega (arith, block_at-lt a q.block y, e)
