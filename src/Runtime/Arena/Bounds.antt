-- ===== src/Runtime/Arena/Bounds.antt =====
-- Where the bytes of an allocation lie: inside a block, aligned, and clear of those handed out before.
use parena.Prelude.{
  ℕ, ◌+◌, ◌%◌, ◌^◌, ◌≤◌, ◌<◌, ◌≡◌, ◌⊎◌, inl, inr, refl, false, [], ◌∷◌, Option, none, some, arith,
  ltb, Option-cases, if_cases,
}
use parena.Runtime.Arena.Provider.{Provider}
use parena.Runtime.Arena.Alloc.{
  Block, Arena, Pointer, align_up, header_bytes, block_capacity, bump_head, arena_new_block,
  in_new_block, arena_alloc,
}

-- The least multiple of 8 that holds `n` bytes.
pub align_up_bounds :
    (n : ℕ) → n + 7 < 2 ^ 64 → (n ≤ align_up n) × (align_up n < n + 8) × (align_up n % 8 ≡ 0)
unfolding align_up
align_up_bounds n h = omega arith

pub record BlockOk (b : Block) : Type 0 where
  pub fits : b.used ≤ b.capacity
  pub aligned : b.used % 8 ≡ 0
  pub small : b.capacity < 2 ^ 63

abbrev pub AllOk : Arena → Type 0
AllOk [] = Unit
AllOk (b ∷ bs) = BlockOk b × AllOk bs

-- The bytes of `ptr` in the arena `a'` that an allocation has made of `a`: they end where the head
-- block is used, within its capacity; they start behind all that was handed out of that block
-- before, or the block is new.
pub record Carves (a : Arena) (size : ℕ) (ptr : Pointer) (a' : Arena) : Type 0 where
  pub head : Block
  pub others : Arena
  pub is_head : a' ≡ head ∷ others
  pub in_head : ptr.block ≡ head.address
  pub inside : (ptr.offset + size ≤ head.used) × (head.used ≤ head.capacity)
  pub aligned : ptr.offset % 8 ≡ 0
  pub clear :
      (ptr.offset ≡ 0) × (others ≡ a)
      ⊎ ((b : Block) × (a ≡ b ∷ others) × (ptr.offset ≡ b.used) × (head.address ≡ b.address))
  pub keeps : AllOk a'

bump_fresh :
    (a : Arena) (address size : ℕ)
    → size < 2 ^ 62
    → AllOk a
    → let b : Block = record {
      address = address;
      used = 0;
      capacity = block_capacity (align_up size);
    } in
      Carves a size (bump_head (align_up size) b a).0 (bump_head (align_up size) b a).1
unfolding block_capacity
bump_fresh a address size h ok =
    let u = align_up_bounds size (omega (arith, h)) in
    record {
      head = record {
        address = address;
        used = (0 + align_up size) % 2 ^ 64;
        capacity = block_capacity (align_up size);
      };
      others = a;
      is_head = refl;
      in_head = refl;
      inside = (omega (arith, u, h), ground arith);
      aligned = omega arith;
      clear = inl (refl, refl);
      keeps =
          (record { fits = ground arith; aligned = omega (arith, u, h); small = ground arith }, ok);
    }

bump_room :
    (b : Block) (bs : Arena) (size : ℕ)
    → size < 2 ^ 62
    → AllOk (b ∷ bs)
    → ltb b.capacity ((b.used + align_up size) % 2 ^ 64) ≡ false
    → Carves (b ∷ bs) size (bump_head (align_up size) b bs).0 (bump_head (align_up size) b bs).1
bump_room b bs size h ok r =
    let u = align_up_bounds size (omega (arith, h)) in
    let f = ok.0.fits in
    let m = ok.0.small in
    record {
      head = record b { used = (b.used + align_up size) % 2 ^ 64 };
      others = bs;
      is_head = refl;
      in_head = refl;
      inside = (omega (arith, u, h, ok.0.fits, ok.0.small), ground arith);
      aligned = ok.0.aligned;
      clear = inr (b, refl, refl, refl);
      keeps = (
        record {
          fits = ground arith;
          aligned = omega (arith, u, h, ok.0.aligned, ok.0.fits, ok.0.small);
          small = ok.0.small;
        },
        ok.1,
      );
    }

module _ (P : Provider) where
  open P use {State, grant}

  -- An exhausted provider ends the program; otherwise the allocation carves its bytes.
  abbrev CarvesIf : Arena → ℕ → Option (Pointer × Arena × State) → Type 0
  CarvesIf a size none = Unit
  CarvesIf a size (some (ptr, a', t)) = Carves a size ptr a'

  new_block-CarvesIf :
      (a : Arena) (s : State) (size : ℕ)
      → size < 2 ^ 62
      → AllOk a
      → CarvesIf a size (in_new_block P (align_up size) a (arena_new_block P s (align_up size)))
  unfolding arena_new_block
  new_block-CarvesIf a s size h ok =
      elim (Option-cases (grant s ((header_bytes + block_capacity (align_up size)) % 2 ^ 64))) [
        | inl e ↦ rw (e, arena_new_block) tt
        | inr (r, e) ↦ rw (e, arena_new_block) (bump_fresh a r.0 size h ok)
      ]

  arena_alloc-CarvesIf :
      (a : Arena) (s : State) (size : ℕ)
      → size < 2 ^ 62
      → AllOk a
      → CarvesIf a size (arena_alloc P a s size)
  unfolding arena_alloc
  arena_alloc-CarvesIf [] s size h ok = new_block-CarvesIf [] s size h ok
  arena_alloc-CarvesIf (b ∷ bs) s size h ok =
      if_cases (CarvesIf (b ∷ bs) size) (ltb b.capacity ((b.used + align_up size) % 2 ^ 64))
        (λ _. new_block-CarvesIf (b ∷ bs) s size h ok) (λ r. bump_room b bs size h ok r)

  -- Whatever the provider, an allocation of less than 2 ^ 62 bytes that returns, from an arena whose
  -- blocks are filled within their capacity, in multiples of 8, has carved its bytes: they lie in the
  -- head block, within its capacity, at a multiple of 8, and behind all that was handed out of that
  -- block before; the other blocks are as they were.
  pub arena_alloc-Carves :
      (a : Arena) (s : State) (size : ℕ) {ptr : Pointer} {a' : Arena} {t : State}
      → size < 2 ^ 62
      → AllOk a
      → arena_alloc P a s size ≡ some (ptr, a', t)
      → Carves a size ptr a'
  arena_alloc-Carves a s size h ok e = rw e at (arena_alloc-CarvesIf a s size h ok)
