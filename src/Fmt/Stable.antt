-- ===== src/Fmt/Stable.antt =====
-- What the formatter does to a line leaves what it reads of the line as it was.
use parena.Prelude.{
  ℕ, zero, suc, ◌+◌, ◌≡◌, inl, inr, refl, ap, ◌∙◌, sym, true, false, [], ◌∷◌, ◌++◌, arith, ltb,
  ◌==◌, if◌then◌else◌, Bool-cases, if_cases, Bytes, length, replicate,
}
use parena.Fmt.Lines.{
  is_closer, is_blank, is_trailing, step_depth, scan_line_body, trim_start, drop_trailing, trim_end,
  content, count_closers, leading_closer_count, indent_cols,
}

-- A line as the formatter writes it, at a depth.
unfoldable pub fmt_line : ℕ → Bytes → Bytes
fmt_line depth line =
    if ltb 0 (length (content line))
    then replicate (indent_cols depth line) b' ' ++ content line
    else []

trim_start-spaces : (n : ℕ) (x : Bytes) → trim_start (replicate n b' ' ++ x) ≡ trim_start x
unfolding trim_start
trim_start-spaces zero x = refl
trim_start-spaces (suc n) x = trim_start-spaces n x

trim_end_idem : (x : Bytes) → trim_end (trim_end x) ≡ trim_end x
unfolding trim_end
trim_end_idem [] = refl
trim_end_idem (c ∷ cs) = go (trim_end cs) (trim_end_idem cs)
  where
    go : (r : Bytes) → trim_end r ≡ r → trim_end (drop_trailing c r) ≡ drop_trailing c r
    go [] e = elim (Bool-cases (is_trailing c)) [ inl t ↦ rw t | inr f ↦ rw (f, trim_end) (rw f) ]
    go (d ∷ ds) e = rw e

-- Trimming the end keeps the start.
trim_start-trim_end :
    (c : ℕ) (cs : Bytes) → is_blank c ≡ false → trim_start (trim_end (c ∷ cs)) ≡ trim_end (c ∷ cs)
unfolding trim_start trim_end
trim_start-trim_end c cs h = go (trim_end cs)
  where
    go : (r : Bytes) → trim_start (drop_trailing c r) ≡ drop_trailing c r
    go [] = elim (Bool-cases (is_trailing c)) [ inl t ↦ rw t | inr f ↦ rw f (rw h) ]
    go (d ∷ ds) = rw h

trim_start-content : (x : Bytes) → trim_start (content x) ≡ content x
unfolding content trim_start
trim_start-content [] = unfold trim_end in refl
trim_start-content (c ∷ cs) = elim (Bool-cases (is_blank c)) [
  | inl b ↦ rw b (trim_start-content cs)
  | inr n ↦ rw n (trim_start-trim_end c cs n)
]

content_idem : (x : Bytes) → content (content x) ≡ content x
content_idem x =
    unfold content in (ap trim_end (trim_start-content x) ∙ trim_end_idem (trim_start x))

content-spaces : (n : ℕ) (x : Bytes) → content (replicate n b' ' ++ x) ≡ content x
unfolding content
content-spaces n x = ap trim_end (trim_start-spaces n x)

pub content-nil : content [] ≡ []
unfolding content trim_start trim_end
content-nil = refl

pub nil_of_length : (x : Bytes) → ltb 0 (length x) ≡ false → x ≡ []
nil_of_length [] h = refl
nil_of_length (c ∷ cs) h = absurd (ground arith)

-- The bytes of a line between its blanks are kept.
pub content-fmt_line : (depth : ℕ) (line : Bytes) → content (fmt_line depth line) ≡ content line
unfolding fmt_line
content-fmt_line depth line =
    if_cases (λ (l : Bytes). content l ≡ content line) (ltb 0 (length (content line)))
      (λ _. content-spaces (indent_cols depth line) (content line) ∙ content_idem line)
      (λ h. content-nil ∙ sym (nil_of_length (content line) h))

count_closers-trim_end : (x : Bytes) → count_closers (trim_end x) ≡ count_closers x
unfolding count_closers trim_end
count_closers-trim_end [] = refl
count_closers-trim_end (c ∷ cs) = go (trim_end cs) (count_closers-trim_end cs)
  where
    go :
        (r : Bytes)
        → count_closers r ≡ count_closers cs
        → count_closers (drop_trailing c r) ≡ count_closers (c ∷ cs)
    go [] e = ground arith
    go (d ∷ ds) e = elim (Bool-cases (is_closer c)) [
      | inl k ↦ rw k (ap (λ n. n + 1) e)
      | inr k ↦ rw k
    ]

pub leading-fmt_line :
    (depth : ℕ) (line : Bytes)
    → ltb 0 (length (content line)) ≡ true
    → leading_closer_count (fmt_line depth line) ≡ leading_closer_count line
unfolding leading_closer_count fmt_line
leading-fmt_line depth line h = rw h (
    ap count_closers
      (trim_start-spaces (indent_cols depth line) (content line) ∙ trim_start-content line)
    ∙ unfold content in count_closers-trim_end (trim_start line))

-- Blanks do not move the depth.
pub blank_depth : (c d : ℕ) → is_trailing c ≡ true → step_depth c d ≡ d
blank_depth c d h = ground arith

pub blank_code :
    (c : ℕ)
    → is_trailing c ≡ true
    → ((c == b';') ≡ false) × ((c == 34) ≡ false) × ((c == b'\\') ≡ false)
blank_code c h = ground arith

pub scan-spaces :
    (n : ℕ) (x : Bytes) (d : ℕ) → scan_line_body (replicate n b' ' ++ x) d ≡ scan_line_body x d
unfolding scan_line_body
scan-spaces zero x d = refl
scan-spaces (suc n) x d = scan-spaces n x d

blank_is_trailing : (c : ℕ) → is_blank c ≡ true → is_trailing c ≡ true
blank_is_trailing c h = rw h

pub scan-trim_start : (x : Bytes) (d : ℕ) → scan_line_body (trim_start x) d ≡ scan_line_body x d
unfolding trim_start scan_line_body
scan-trim_start [] d = refl
scan-trim_start (c ∷ cs) d = elim (Bool-cases (is_blank c)) [
  | inl b ↦
      let t = blank_is_trailing c b in
      let (n1, n2, n3) = blank_code c t in rw (b, n1, n2, blank_depth c d t) (scan-trim_start cs d)
  | inr n ↦ rw n
]
