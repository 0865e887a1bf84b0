-- ===== src/Fmt/Layout.antt =====
-- The lines that the formatter puts out, without the buffer, and splitting of lines.
use parena.Prelude.{
  ℕ, ◌≡◌, ap, ◌∙◌, sym, Bool, true, false, List, [], ◌∷◌, ◌++◌, ltb, if◌then◌else◌, Bool-cases,
  if_cases, Bytes, length, replicate, inl, inr,
}
use parena.Fmt.Lines.{scan_line_body, trim_start, content, indent_cols}
use parena.Fmt.Stable.{
  fmt_line, content-fmt_line, content-nil, nil_of_length, leading-fmt_line, scan-spaces,
  scan-trim_start,
}
use parena.Fmt.Depth.{scan-trim_end}

abbrev pub has_content : Bytes → Bool
has_content line = ltb 0 (length (content line))

scan-content : (line : Bytes) (e : ℕ) → scan_line_body (content line) e ≡ scan_line_body line e
unfolding content
scan-content line e = scan-trim_end (trim_start line) e ∙ scan-trim_start line e

-- The depth behind a line is that behind the line as it is put out.
pub scan-fmt_line :
    (depth : ℕ) (line : Bytes) (e : ℕ)
    → scan_line_body (fmt_line depth line) e ≡ scan_line_body line e
unfolding fmt_line
scan-fmt_line depth line e =
    if_cases (λ (l : Bytes). scan_line_body l e ≡ scan_line_body line e) (has_content line)
      (λ _. scan-spaces (indent_cols depth line) (content line) e ∙ scan-content line e)
      (λ h.
        ap (λ l. scan_line_body l e) (sym (nil_of_length (content line) h)) ∙ scan-content line e)

pub fmt_line_full :
    (depth : ℕ) (line : Bytes)
    → has_content line ≡ true
    → fmt_line depth line ≡ replicate (indent_cols depth line) b' ' ++ content line
unfolding fmt_line
fmt_line_full depth line h = rw h

pub fmt_line_empty :
    (depth : ℕ) (line : Bytes) → has_content line ≡ false → fmt_line depth line ≡ []
unfolding fmt_line
fmt_line_empty depth line h = rw h

-- A line that has been put out is put out as it is.
pub fmt_line_idem :
    (depth : ℕ) (line : Bytes) → fmt_line depth (fmt_line depth line) ≡ fmt_line depth line
fmt_line_idem depth line = elim (Bool-cases (has_content line)) [
  | inl h ↦
      unfold indent_cols in
      (fmt_line_full depth (fmt_line depth line)
          (ap (λ c. ltb 0 (length c)) (content-fmt_line depth line) ∙ h)
        ∙ rw (content-fmt_line depth line, leading-fmt_line depth line h)
            (sym (fmt_line_full depth line h)))
  | inr h ↦ rw (fmt_line_empty depth line h) (fmt_line_empty depth [] (rw content-nil))
]

-- The lines put out for the lines of a source, from a depth on.
unfoldable pub out_lines : List Bytes → ℕ → List Bytes
out_lines [] depth = []
out_lines (l ∷ []) depth = if has_content l then fmt_line depth l ∷ [] ∷ [] else [] ∷ []
out_lines (l ∷ m ∷ ls) depth = fmt_line depth l ∷ out_lines (m ∷ ls) (scan_line_body l depth)

unfoldable pub join_lines : List Bytes → Bytes
join_lines [] = []
join_lines (l ∷ []) = l
join_lines (l ∷ m ∷ ls) = l ++ (b'\n' ∷ join_lines (m ∷ ls))
