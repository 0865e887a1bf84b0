-- ===== src/Fmt/Buffer.antt =====
-- With room in the buffer the output is the laid-out lines, and every write is inside it.
use parena.Prelude.{
  ℕ, ◌+◌, ◌≤◌, ◌<◌, ◌≡◌, refl, ap, ◌∙◌, sym, true, false, List, [], ◌∷◌, ◌++◌, append_assoc,
  append-nil, arith, ltb, leb, Bool-cases, Bytes, length, length-append, length-replicate,
  replicate, inl, inr, ◌⊎◌,
}
use parena.Fmt.Lines.{scan_line_body, content, indent_cols}
use parena.Fmt.Stable.{fmt_line}
use parena.Fmt.Layout.{has_content, fmt_line_full, fmt_line_empty, out_lines, join_lines}
use parena.Fmt.Split.{NoNewline, AllLines, IsCons, NoNewline-fmt_line, out_lines-IsCons}
use parena.Fmt.Source.{Out, put, put_line, ends_in_newline, put_last, fmt_lines}

abbrev clean : Bytes → Out
clean bs = record { bytes = bs; overrun = false }

length-append_bytes : (a b : Bytes) → length (a ++ b) ≡ length a + length b
length-append_bytes = length-append

no_overflow : (cap' a b c : ℕ) → a + (b + c) + 2 ≤ cap' → ltb cap' (a + b + c + 2) ≡ false
no_overflow cap' a b c h = ground arith

put_line-room :
    (cap' depth : ℕ) (l bs : Bytes)
    → length bs + length (fmt_line depth l) + 2 ≤ cap'
    → put_line cap' depth l (clean bs) ≡ clean (bs ++ fmt_line depth l)
unfolding put_line
put_line-room cap' depth l bs h = elim (Bool-cases (has_content l)) [
  | inl full ↦
      let spaces : Bytes = replicate (indent_cols depth l) b' ' in
      let f = fmt_line_full depth l full in
      let e1 : length (fmt_line depth l) ≡ length (spaces ++ content l) = ap length f in
      let e2 : length (spaces ++ content l) ≡ length spaces + length (content l) =
        length-append_bytes spaces (content l) in
      let e3 : length spaces ≡ indent_cols depth l = length-replicate (indent_cols depth l) b' ' in
      let room =
        no_overflow cap' (length bs) (indent_cols depth l) (length (content l))
          (rw (e1 ∙ e2, e3) at h) in
      rw (full, room) (ap clean (append_assoc bs spaces (content l) ∙ ap (λ x. bs ++ x) (sym f)))
  | inr empty ↦ rw (empty, fmt_line_empty depth l empty) (ap clean (sym (append-nil bs)))
]

put-room :
    (cap' : ℕ) (bs : Bytes) (c : ℕ)
    → length bs < cap'
    → put cap' (clean bs) c ≡ clean (bs ++ (c ∷ []))
unfolding put
put-room cap' bs c h = let f : leb cap' (length bs) ≡ false = ground arith in rw f

-- Text without a newline, and not empty, does not end in one.
ends-append :
    (bs x : Bytes) → NoNewline x → ltb 0 (length x) ≡ true → ends_in_newline (bs ++ x) ≡ false
ends-append [] [] n h = absurd (ground arith)
ends-append [] (c ∷ []) n h = n.0
ends-append [] (c ∷ d ∷ cs) n h = ends-append [] (d ∷ cs) n.1 (ground arith)
ends-append (b ∷ []) [] n h = absurd (ground arith)
ends-append (b ∷ []) (c ∷ cs) n h = ends-append [] (c ∷ cs) n h
ends-append (b ∷ b' ∷ bs) x n h = ends-append (b' ∷ bs) x n h

full_length :
    (depth : ℕ) (l : Bytes) → has_content l ≡ true → ltb 0 (length (fmt_line depth l)) ≡ true
full_length depth l full =
    let e : length (fmt_line depth l) ≡ length (replicate (indent_cols depth l) b' ' ++ content l) =
      ap length (fmt_line_full depth l full) in
    let k = length-append_bytes (replicate (indent_cols depth l) b' ') (content l) in
    longer (length (replicate (indent_cols depth l) b' ')) (length (content l)) (e ∙ k) full
  where
    longer : (a b : ℕ) {n : ℕ} → n ≡ a + b → ltb 0 b ≡ true → ltb 0 n ≡ true
    longer a b e h = ground arith

put_last-full :
    (cap' : ℕ) (l x : Bytes)
    → has_content l ≡ true
    → ends_in_newline x ≡ false
    → length x < cap'
    → put_last cap' l (clean x) ≡ clean (x ++ (b'\n' ∷ []))
unfolding put_last
put_last-full cap' l x full e h = rw (full, e) (put-room cap' x b'\n' h)

put_last-empty :
    (cap' : ℕ) (l x : Bytes) → has_content l ≡ false → put_last cap' l (clean x) ≡ clean x
unfolding put_last
put_last-empty cap' l x empty = rw empty

join_cons :
    (l : Bytes) (r : List Bytes) → IsCons r → join_lines (l ∷ r) ≡ l ++ (b'\n' ∷ join_lines r)
unfolding join_lines
join_cons l [] c = absurd c
join_cons l (m ∷ r) c = refl

snoc_length :
    (bs f r : Bytes) (c : ℕ)
    → length (bs ++ (f ++ (c ∷ r))) ≡ length bs + (length f + (length r + 1))
snoc_length bs f r c =
    let e1 = length-append_bytes bs (f ++ (c ∷ r)) in
    let e2 = length-append_bytes f (c ∷ r) in ground arith

join_last-full :
    (l : Bytes) (depth : ℕ)
    → has_content l ≡ true
    → join_lines (out_lines (l ∷ []) depth) ≡ fmt_line depth l ++ (b'\n' ∷ [])
unfolding out_lines join_lines
join_last-full l depth full = rw full

join_last-empty :
    (l : Bytes) (depth : ℕ) → has_content l ≡ false → join_lines (out_lines (l ∷ []) depth) ≡ []
unfolding out_lines join_lines
join_last-empty l depth empty = rw empty

last_line :
    (cap' : ℕ) (l : Bytes) (depth : ℕ) (bs : Bytes)
    → NoNewline l
    → length bs + length (join_lines (out_lines (l ∷ []) depth)) + 2 ≤ cap'
    → put_last cap' l (put_line cap' depth l (clean bs))
      ≡ clean (bs ++ join_lines (out_lines (l ∷ []) depth))
last_line cap' l depth bs n h = go (Bool-cases (has_content l))
  where
    f : Bytes
    f = fmt_line depth l

    go :
        (has_content l ≡ true) ⊎ (has_content l ≡ false)
        → put_last cap' l (put_line cap' depth l (clean bs))
          ≡ clean (bs ++ join_lines (out_lines (l ∷ []) depth))
    go (inl full) =
        let j = join_last-full l depth full in
        let room = ap length j in
        let e = snoc_length bs f [] b'\n' in
        let e0 = length-append_bytes bs f in
        let e1 = length-append_bytes f (b'\n' ∷ []) in
        ap (put_last cap' l) (put_line-room cap' depth l bs (ground arith))
        ∙ put_last-full cap' l (bs ++ f) full
            (ends-append bs f (NoNewline-fmt_line depth l n) (full_length depth l full))
            (ground arith)
        ∙ ap clean (append_assoc bs f (b'\n' ∷ []) ∙ ap (λ x. bs ++ x) (sym j))
    go (inr empty) =
        let j = join_last-empty l depth empty in
        let z = fmt_line_empty depth l empty in
        let e = ap length j in
        let e1 = ap length z in
        ap (put_last cap' l) (put_line-room cap' depth l bs (ground arith))
        ∙ put_last-empty cap' l (bs ++ f) empty
        ∙ ap (λ x. clean (bs ++ x)) (z ∙ sym j)

-- The lines go to the buffer as they are laid out, while they fit.
pub fmt_lines-join :
    (cap' : ℕ) (ls : List Bytes) (depth : ℕ) (bs : Bytes)
    → AllLines ls
    → length bs + length (join_lines (out_lines ls depth)) + 2 ≤ cap'
    → fmt_lines cap' ls depth (clean bs) ≡ clean (bs ++ join_lines (out_lines ls depth))
unfolding fmt_lines
fmt_lines-join cap' [] depth bs n h = unfold out_lines join_lines in ap clean (sym (append-nil bs))
fmt_lines-join cap' (l ∷ []) depth bs n h = last_line cap' l depth bs n.0 h
fmt_lines-join cap' (l ∷ m ∷ ls) depth bs n h =
    let f = fmt_line depth l in
    let d' = scan_line_body l depth in
    let r = out_lines (m ∷ ls) d' in
    let j : join_lines (out_lines (l ∷ m ∷ ls) depth) ≡ f ++ (b'\n' ∷ join_lines r) =
      unfold out_lines in join_cons f r (out_lines-IsCons (m ∷ ls) d' tt) in
    let x : Bytes = bs ++ f in
    let y : Bytes = x ++ (b'\n' ∷ []) in
    let e = ap length j in
    let e0 = length-append_bytes bs f in
    let e1 = length-append_bytes f (b'\n' ∷ join_lines r) in
    let e2 = length-append_bytes x (b'\n' ∷ []) in
    ap (λ o. fmt_lines cap' (m ∷ ls) d' (put cap' o b'\n'))
      (put_line-room cap' depth l bs (ground arith))
    ∙ ap (fmt_lines cap' (m ∷ ls) d') (put-room cap' x b'\n' (ground arith))
    ∙ fmt_lines-join cap' (m ∷ ls) d' y n.1 (ground arith)
    ∙ ap clean (
        append_assoc x (b'\n' ∷ []) (join_lines r)
        ∙ append_assoc bs f (b'\n' ∷ join_lines r)
        ∙ ap (λ z. bs ++ z) (sym j))
