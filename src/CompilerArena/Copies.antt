-- ===== src/CompilerArena/Copies.antt =====
-- src/arena.c: `arena_strdup` puts a copy where nothing else lies.
use parena.Prelude.{
  drop, length-append, some-inj, ==_iff, ◌^◌, ℕ, ◌+◌, ◌%◌, ◌<◌, ◌≤◌, ◌≡◌, inl, inr, refl, sym, ap,
  ◌∙◌, true, [], ◌∷◌, ◌++◌, Option, none, some, arith, ltb, ◌==◌, if_cases, Bytes, length,
  Bool-cases, Option-cases,
}
use parena.CompilerArena.Contents.{splice, length-splice, read-splice, read-splice_before}
use parena.CompilerArena.Alloc.{
  Block, Arena, Pointer, align_up, header_bytes, block_capacity, store, arena_new_block,
  in_new_block, arena_alloc, copied, arena_strdup,
}
use parena.CompilerArena.Texts.{
  AllOk, Holds, holds, Granted, align_up_bounds, block_capacity_bound, length-drop, bump_room,
  bump_fresh,
}

-- A text written to the bytes of an allocation is there, and every text that the blocks held still is.
stored :
    (hd : Block) (others : Arena) (p : Pointer) (text : Bytes)
    → p.block ≡ length others
    → p.offset + length text ≤ hd.used
    → hd.used ≤ length hd.content
    → Holds (store (hd ∷ others) p text) p text
unfolding store
stored hd others p text here inside fits =
    let same : (p.block == length others) ≡ true = (==_iff p.block (length others)).1 here in
    let cut = read-splice hd.content p.offset text (omega (arith, inside, fits)) in
    rw same
      (holds (record hd { content = splice hd.content p.offset text }) (rw same refl) inside cut)

undisturbed :
    (hd : Block) (others : Arena) (p : Pointer) (text : Bytes) (q : Pointer) (t : Bytes)
    → p.block ≡ length others
    → (q.block ≡ p.block → q.offset + length t ≤ p.offset)
    → Holds (hd ∷ others) q t
    → Holds (store (hd ∷ others) p text) q t
unfolding store
undisturbed hd others p text q t here clear (holds b e i r) =
    let same : (p.block == length others) ≡ true = (==_iff p.block (length others)).1 here in
    rw same (elim (Bool-cases (q.block == length others)) [
      | inl y ↦
          let at_head = some-inj (rw y at e) in
          let before = clear ((==_iff q.block (length others)).0 y ∙ sym here) in
          holds (record hd { content = splice hd.content p.offset text }) (rw y refl)
            (omega (arith, ap (λ x. x.used) at_head, i))
            (read-splice_before hd.content p.offset text q.offset (length t) before
              ∙ rw (ap (λ x. x.content) at_head) r)
      | inr n ↦ holds b (rw n (rw n at e)) i r
    ])

store-AllOk : (a : Arena) (p : Pointer) (text : Bytes) → AllOk a → AllOk (store a p text)
unfolding store
store-AllOk [] p text ok = ok
store-AllOk (b ∷ bs) p text ok =
    if_cases AllOk (p.block == length bs)
      (λ e.
        let same = length-splice b.content p.offset text in
        (
          record {
            fits = omega (arith, same, ok.0.fits);
            aligned = ok.0.aligned;
            small = omega (arith, same, ok.0.small);
          },
          ok.1,
        ))
      (λ e. (ok.0, store-AllOk bs p text ok.1))

-- What a copy has made of the arena `a`.
pub record Copied (a : Arena) (text : Bytes) (p : Pointer) (a' : Arena) : Type 0 where
  pub text_held : Holds a' p (text ++ (0 ∷ []))
  pub aligned : p.offset % 8 ≡ 0
  pub all_ok : AllOk a'
  pub keeps : (q : Pointer) (t : Bytes) → Holds a q t → Holds a' q t

copy-Copied :
    (a : Arena) (text : Bytes) (p : Pointer) (a' : Arena)
    → Granted a (length text + 1) p a'
    → Copied a text p (store a' p (text ++ (0 ∷ [])))
copy-Copied a text p a' g =
    let n = length-append text (0 ∷ []) in
    let ok = rw g.is_head at g.all_ok in
    rw g.is_head (record {
      text_held =
          stored g.head g.others p (text ++ (0 ∷ [])) g.in_head (omega (arith, n, g.inside))
            ok.0.fits;
      aligned = g.aligned;
      all_ok = store-AllOk (g.head ∷ g.others) p (text ++ (0 ∷ [])) ok;
      keeps = λ q t k.
          undisturbed g.head g.others p (text ++ (0 ∷ [])) q t g.in_head (λ e. g.clear q t k e)
            (rw g.is_head at (g.keeps q t k));
    })

-- The compiler ends as `malloc` has no bytes for it, or goes on with a result that is `Good`.
pub data Exits {H : Type 0} (malloc : H → ℕ → Option (Bytes × H)) (h : H)
    (Good : Pointer → Arena → Type 0) : Option (Pointer × (Arena × H)) → Type 0 where
  out_of_memory : {n : ℕ} → malloc h n ≡ none → Exits malloc h Good none
  goes_on :
      {p : Pointer} {a' : Arena} {h' : H} → Good p a' → Exits malloc h Good (some (p, (a', h')))

module _ {H : Type 0} (malloc : H → ℕ → Option (Bytes × H))
    (gives : (h : H) (n : ℕ) (bytes : Bytes) (h' : H)
      → malloc h n ≡ some (bytes, h')
      → length bytes ≡ n) where
  new_block-Exits :
      (a : Arena) (h : H) (size : ℕ)
      → size < 2 ^ 62
      → AllOk a
      → Exits malloc h
          (λ p a'. Granted a size p a')
          (in_new_block malloc (align_up size) a (arena_new_block malloc h (align_up size)))
  unfolding arena_new_block
  new_block-Exits a h size small ok =
      elim (Option-cases (malloc h ((header_bytes + block_capacity (align_up size)) % 2 ^ 64))) [
        | inl e ↦ rw e (out_of_memory e)
        | inr ((bytes, h'), e) ↦ rw e (
            goes_on (
              bump_fresh a (drop header_bytes bytes) size small ok (
                capacity bytes
                  (gives h ((header_bytes + block_capacity (align_up size)) % 2 ^ 64) bytes h' e))))
      ]
    where
      capacity :
          (bytes : Bytes)
          → length bytes ≡ (header_bytes + block_capacity (align_up size)) % 2 ^ 64
          → length (drop header_bytes bytes) ≡ block_capacity (align_up size)
      capacity bytes e =
          let u = align_up_bounds size small in
          let c = block_capacity_bound (align_up size) in
          omega (arith, length-drop header_bytes bytes, e, u, c, small)

  pub arena_alloc-Granted :
      (a : Arena) (h : H) (size : ℕ)
      → size < 2 ^ 62
      → AllOk a
      → Exits malloc h (λ p a'. Granted a size p a') (arena_alloc malloc a h size)
  unfolding arena_alloc
  arena_alloc-Granted [] h size small ok = new_block-Exits [] h size small ok
  arena_alloc-Granted (b ∷ bs) h size small ok =
      if_cases {A = Option (Pointer × (Arena × H))}
        (λ o. Exits malloc h (λ p a'. Granted (b ∷ bs) size p a') o)
        (ltb (length b.content) ((b.used + align_up size) % 2 ^ 64))
        (λ e. new_block-Exits (b ∷ bs) h size small ok)
        (λ e. goes_on (bump_room b bs size small ok e))

  -- Whatever the heap does, a copy of a text ends the compiler, as `malloc` has no bytes, or puts the text and a NUL into bytes of
  -- their own, aligned to 8, in an arena whose blocks are sound, and every text that the arena held
  -- lies where it lay, if the blocks were sound before and the text is shorter than 2 ^ 61.
  pub arena_strdup-Copied :
      (a : Arena) (h : H) (text : Bytes)
      → length text < 2 ^ 61
      → AllOk a
      → Exits malloc h (λ p a'. Copied a text p a') (arena_strdup malloc a h text)
  unfolding arena_strdup
  arena_strdup-Copied a h text small ok =
      let exact : (length text + 1) % 2 ^ 64 ≡ length text + 1 = omega (arith, small) in
      rw exact (copy (arena_alloc-Granted a h (length text + 1) (omega (arith, small)) ok))
    where
      copy :
          {o : Option (Pointer × (Arena × H))}
          → Exits malloc h (λ p a'. Granted a (length text + 1) p a') o
          → Exits malloc h (λ p a'. Copied a text p a') (copied malloc text o)
      copy (out_of_memory e) = out_of_memory e
      copy (goes_on {p} {a'} g) = goes_on (copy-Copied a text p a' g)
