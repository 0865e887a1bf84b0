-- ===== src/Fmt/Split.antt =====
-- Lines hold no newline, and splitting what has been joined gives the lines back.
use parena.Prelude.{
  ℕ, zero, suc, ◌≡◌, refl, ap, ◌∙◌, false, List, [], ◌∷◌, ◌++◌, ◌==◌, Bool-cases, if_cases, Bytes,
  replicate, inl, inr,
}
use parena.Fmt.Lines.{
  is_blank, is_trailing, scan_line_body, trim_start, drop_trailing, trim_end, content, indent_cols,
  onto_first, split_lines,
}
use parena.Fmt.Stable.{fmt_line}
use parena.Fmt.Layout.{has_content, out_lines, join_lines}

abbrev pub NoNewline : Bytes → Type 0
NoNewline [] = Unit
NoNewline (c ∷ cs) = ((c == b'\n') ≡ false) × NoNewline cs

abbrev pub AllLines : List Bytes → Type 0
AllLines [] = Unit
AllLines (l ∷ ls) = NoNewline l × AllLines ls

-- At least one line.
abbrev pub IsCons : List Bytes → Type 0
IsCons [] = ⊥
IsCons (l ∷ ls) = Unit

NoNewline-trim_start : (x : Bytes) → NoNewline x → NoNewline (trim_start x)
unfolding trim_start
NoNewline-trim_start [] h = tt
NoNewline-trim_start (c ∷ cs) h =
    if_cases NoNewline (is_blank c) (λ _. NoNewline-trim_start cs h.1) (λ _. h)

NoNewline-trim_end : (x : Bytes) → NoNewline x → NoNewline (trim_end x)
unfolding trim_end
NoNewline-trim_end [] h = tt
NoNewline-trim_end (c ∷ cs) h = go (trim_end cs) (NoNewline-trim_end cs h.1)
  where
    go : (r : Bytes) → NoNewline r → NoNewline (drop_trailing c r)
    go [] k = if_cases NoNewline (is_trailing c) (λ _. tt) (λ _. (h.0, tt))
    go (d ∷ ds) k = (h.0, k)

pub NoNewline-content : (x : Bytes) → NoNewline x → NoNewline (content x)
unfolding content
NoNewline-content x h = NoNewline-trim_end (trim_start x) (NoNewline-trim_start x h)

NoNewline-spaces : (n : ℕ) (x : Bytes) → NoNewline x → NoNewline (replicate n b' ' ++ x)
NoNewline-spaces zero x h = h
NoNewline-spaces (suc n) x h = (refl, NoNewline-spaces n x h)

pub NoNewline-fmt_line : (depth : ℕ) (l : Bytes) → NoNewline l → NoNewline (fmt_line depth l)
unfolding fmt_line
NoNewline-fmt_line depth l h =
    if_cases NoNewline (has_content l)
      (λ _. NoNewline-spaces (indent_cols depth l) (content l) (NoNewline-content l h)) (λ _. tt)

pub out_lines-AllLines : (ls : List Bytes) (depth : ℕ) → AllLines ls → AllLines (out_lines ls depth)
unfolding out_lines
out_lines-AllLines [] depth h = tt
out_lines-AllLines (l ∷ []) depth h =
    if_cases AllLines (has_content l) (λ _. (NoNewline-fmt_line depth l h.0, (tt, tt)))
      (λ _. (tt, tt))
out_lines-AllLines (l ∷ m ∷ ls) depth h =
    (NoNewline-fmt_line depth l h.0, out_lines-AllLines (m ∷ ls) (scan_line_body l depth) h.1)

pub out_lines-IsCons : (ls : List Bytes) (depth : ℕ) → IsCons ls → IsCons (out_lines ls depth)
unfolding out_lines
out_lines-IsCons (l ∷ []) depth h = if_cases IsCons (has_content l) (λ _. tt) (λ _. tt)
out_lines-IsCons (l ∷ m ∷ ls) depth h = tt
out_lines-IsCons [] depth h = h

split_last : (l : Bytes) → NoNewline l → split_lines l ≡ l ∷ []
unfolding split_lines
split_last [] h = refl
split_last (c ∷ cs) h = rw h.0 (ap (onto_first c) (split_last cs h.1))

split_line :
    (l rest : Bytes) → NoNewline l → split_lines (l ++ (b'\n' ∷ rest)) ≡ l ∷ split_lines rest
unfolding split_lines
split_line [] rest h = refl
split_line (c ∷ cs) rest h = rw h.0 (ap (onto_first c) (split_line cs rest h.1))

pub split_lines-join_lines :
    (ls : List Bytes) → IsCons ls → AllLines ls → split_lines (join_lines ls) ≡ ls
unfolding join_lines
split_lines-join_lines [] c h = absurd c
split_lines-join_lines (l ∷ []) c h = split_last l h.0
split_lines-join_lines (l ∷ m ∷ ls) c h =
    split_line l (join_lines (m ∷ ls)) h.0
    ∙ ap (λ r. l ∷ r) (split_lines-join_lines (m ∷ ls) tt h.1)

onto_first-AllLines :
    (c : ℕ) (ls : List Bytes) → (c == b'\n') ≡ false → AllLines ls → AllLines (onto_first c ls)
onto_first-AllLines c [] n h = ((n, tt), tt)
onto_first-AllLines c (l ∷ ls) n h = ((n, h.0), h.1)

onto_first-IsCons : (c : ℕ) (ls : List Bytes) → IsCons (onto_first c ls)
onto_first-IsCons c [] = tt
onto_first-IsCons c (l ∷ ls) = tt

pub split_lines-AllLines : (src : Bytes) → AllLines (split_lines src) × IsCons (split_lines src)
unfolding split_lines
split_lines-AllLines [] = ((tt, tt), tt)
split_lines-AllLines (c ∷ cs) = elim (Bool-cases (c == b'\n')) [
  | inl e ↦ rw e ((tt, (split_lines-AllLines cs).0), tt)
  | inr n ↦ rw n (
    onto_first-AllLines c (split_lines cs) n (split_lines-AllLines cs).0,
    onto_first-IsCons c (split_lines cs),
  )
]
