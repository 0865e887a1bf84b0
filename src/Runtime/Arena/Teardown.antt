-- ===== src/Runtime/Arena/Teardown.antt =====
-- An arena's teardown gives every block back to the provider.
use parena.Prelude.{
  ℕ, ◌+◌, ◌%◌, ◌^◌, ◌<◌, ◌≡◌, refl, [], ◌∷◌, Option, none, some, arith, ltb, Option-cases, if_cases,
  inl, inr,
}
use parena.Runtime.Arena.Provider.{Provider, request_limit}
use parena.Runtime.Arena.Alloc.{
  Block, Arena, Pointer, align_up, header_bytes, block_capacity, arena_init, arena_new_block,
  in_new_block, arena_alloc, arena_free_all,
}
use parena.Runtime.Arena.Bounds.{align_up_bounds}

module _ (P : Provider) where
  open P use {State, view, Good, grant, release, grant-Good, release-grant}

  -- Allocations from an arena and a provider: each returns, and asks for less than half the
  -- address space.
  pub data Allocs (a : Arena) (s : State) : Arena → State → Type 0 where
    none_yet : Allocs a s a s
    one_more :
        {b c : Arena} {t u : State} (size : ℕ) (ptr : Pointer)
        → Allocs a s b t
        → size < 2 ^ 62
        → arena_alloc P b t size ≡ some (ptr, c, u)
        → Allocs a s c u

  -- The blocks of an arena, as the grants that the provider has made since `s`.
  data Owns (s : State) : Arena → State → Type 0 where
    nothing : Owns s [] s
    block :
        {bs : Arena} {t u : State} (b : Block) (n : ℕ)
        → n < request_limit
        → grant t n ≡ some (b.address, u)
        → Owns s bs t
        → Owns s (b ∷ bs) u

  Owns-Good : {s t : State} {a : Arena} → Good s → Owns s a t → Good t
  Owns-Good g nothing = g
  Owns-Good g (block {t} {u} b n h e o) = grant-Good t n b.address u h (Owns-Good g o) e

  -- Releasing the blocks in their order undoes the grants, the latest first.
  free_all-Owns :
      {s t : State} {a : Arena} (w : State)
      → Good s
      → Owns s a t
      → view w ≡ view t
      → view (arena_free_all P a w) ≡ view s
  unfolding arena_free_all
  free_all-Owns w g nothing e = e
  free_all-Owns w g (block {t} {u} b n h q o) e =
      free_all-Owns (release w b.address) g o
        (release-grant t n b.address u w h (Owns-Good g o) q e)

  abbrev OwnsIf : State → Option (Pointer × Arena × State) → Type 0
  OwnsIf s none = Unit
  OwnsIf s (some (ptr, a, t)) = Owns s a t

  block_capacity-lt : (n : ℕ) → n < 2 ^ 62 + 8 → header_bytes + block_capacity n < request_limit
  unfolding block_capacity
  block_capacity-lt n h = ground arith

  Owns-bump :
      {s t : State} {bs : Arena} (b : Block) (n : ℕ)
      → Owns s (b ∷ bs) t
      → Owns s (record b { used = (b.used + n) % 2 ^ 64 } ∷ bs) t
  Owns-bump b n (block b' m h e o) = block (record b' { used = (b'.used + n) % 2 ^ 64 }) m h e o

  new_block-OwnsIf :
      {s : State} (a : Arena) (t : State) (n : ℕ)
      → n < 2 ^ 62 + 8
      → Owns s a t
      → OwnsIf s (in_new_block P n a (arena_new_block P t n))
  unfolding arena_new_block
  new_block-OwnsIf a t n h o =
      elim (Option-cases (grant t ((header_bytes + block_capacity n) % 2 ^ 64))) [
        | inl e ↦ rw (e, arena_new_block) tt
        | inr (r, e) ↦
            rw (e, arena_new_block)
              (block
                (record { address = r.0; used = (0 + n) % 2 ^ 64; capacity = block_capacity n })
                ((header_bytes + block_capacity n) % 2 ^ 64) (omega (arith, block_capacity-lt n h))
                e o)
      ]

  arena_alloc-OwnsIf :
      {s : State} (a : Arena) (t : State) (size : ℕ)
      → size < 2 ^ 62
      → Owns s a t
      → OwnsIf s (arena_alloc P a t size)
  unfolding arena_alloc
  arena_alloc-OwnsIf {s} [] t size h o =
      new_block-OwnsIf [] t (align_up size) (omega (arith, align_up_bounds size (omega arith))) o
  arena_alloc-OwnsIf {s} (b ∷ bs) t size h o =
      if_cases (OwnsIf s) (ltb b.capacity ((b.used + align_up size) % 2 ^ 64))
        (λ _.
          new_block-OwnsIf (b ∷ bs) t (align_up size)
            (omega (arith, align_up_bounds size (omega arith))) o)
        (λ _. Owns-bump b (align_up size) o)

  Allocs-Owns : {s t : State} {a : Arena} → Allocs [] s a t → Owns s a t
  Allocs-Owns none_yet = nothing
  Allocs-Owns {s} (one_more {b} {t} size ptr r h e) =
      rw e at (arena_alloc-OwnsIf {s = s} b t size h (Allocs-Owns r))

  -- An arena that starts empty, after any allocations that return, is torn down to nothing: the
  -- provider is again as it was, up to what its view leaves out.
  pub arena_free_all-Allocs :
      {s t : State} {a : Arena}
      → Good s
      → Allocs arena_init s a t
      → view (arena_free_all P a t) ≡ view s
  unfolding arena_init
  arena_free_all-Allocs {t} g r = free_all-Owns t g (Allocs-Owns r) refl
