-- ===== src/Fmt/Whole.antt =====
-- src/fmt.c: what `fmt_source` does to a whole source.
use parena.Prelude.{
  ℕ, ◌+◌, ◌*◌, ◌≤◌, ◌≡◌, refl, ap, ◌∙◌, sym, true, false, List, [], ◌∷◌, arith, ltb, leb,
  if◌then◌else◌, Bool-cases, Bytes, length, map, inl, inr, ◌⊎◌,
}
use parena.Fmt.Lines.{scan_line_body, content, split_lines}
use parena.Fmt.Stable.{fmt_line, content-fmt_line, content-nil, nil_of_length}
use parena.Fmt.Layout.{has_content, scan-fmt_line, fmt_line_idem, out_lines, join_lines}
use parena.Fmt.Split.{
  IsCons, out_lines-AllLines, out_lines-IsCons, split_lines-join_lines, split_lines-AllLines,
}
use parena.Fmt.Buffer.{fmt_lines-join}
use parena.Fmt.Source.{Out, terminate, fmt_source}

-- The source laid out anew, without a buffer.
abbrev pub formatted : Bytes → Bytes
formatted src = join_lines (out_lines (split_lines src) 0)

-- The buffer that `fmt_source` takes has room for the text it puts out, with the check's slack of two.
abbrev pub HasRoom : Bytes → Type 0
HasRoom src = length (formatted src) + 2 ≤ length src * 2 + 4096

-- While its buffer has room, `fmt_source` puts out the lines of the source laid out one by one, and
-- writes no byte outside the buffer.
pub fmt_source-formatted :
    (src : Bytes) → HasRoom src → fmt_source src ≡ record { bytes = formatted src; overrun = false }
unfolding fmt_source
fmt_source-formatted src room =
    let k =
      fmt_lines-join (length src * 2 + 4096) (split_lines src) 0 [] (split_lines-AllLines src).0
        (omega (arith, room)) in
    ap (terminate (length src * 2 + 4096)) k ∙ inside (formatted src) (length src * 2 + 4096) room
  where
    inside :
        (x : Bytes) (cap' : ℕ)
        → length x + 2 ≤ cap'
        → terminate cap' (record { bytes = x; overrun = false })
          ≡ record { bytes = x; overrun = false }
    inside x cap' h = let f : leb cap' (length x) ≡ false = ground arith in rw f

out_lines-cons :
    (l : Bytes) (r : List Bytes) (d : ℕ)
    → IsCons r
    → out_lines (l ∷ r) d ≡ fmt_line d l ∷ out_lines r (scan_line_body l d)
unfolding out_lines
out_lines-cons l [] d c = absurd c
out_lines-cons l (m ∷ r) d c = refl

out_lines-blank : (d : ℕ) → out_lines ([] ∷ []) d ≡ [] ∷ []
unfolding out_lines
out_lines-blank d = rw content-nil

out_last-full :
    (l : Bytes) (d : ℕ) → has_content l ≡ true → out_lines (l ∷ []) d ≡ fmt_line d l ∷ [] ∷ []
unfolding out_lines
out_last-full l d h = rw h

out_last-empty : (l : Bytes) (d : ℕ) → has_content l ≡ false → out_lines (l ∷ []) d ≡ [] ∷ []
unfolding out_lines
out_last-empty l d h = rw h

out_last_idem : (l : Bytes) (d : ℕ) → out_lines (out_lines (l ∷ []) d) d ≡ out_lines (l ∷ []) d
out_last_idem l d = go (Bool-cases (has_content l))
  where
    f : Bytes
    f = fmt_line d l

    go :
        (has_content l ≡ true) ⊎ (has_content l ≡ false)
        → out_lines (out_lines (l ∷ []) d) d ≡ out_lines (l ∷ []) d
    go (inl full) =
        let e = out_last-full l d full in
        ap (λ ls. out_lines ls d) e
        ∙ out_lines-cons f ([] ∷ []) d tt
        ∙ ap (λ x. x ∷ out_lines ([] ∷ []) (scan_line_body f d)) (fmt_line_idem d l)
        ∙ ap (λ ls. f ∷ ls) (out_lines-blank (scan_line_body f d))
        ∙ sym e
    go (inr empty) =
        let e = out_last-empty l d empty in ap (λ ls. out_lines ls d) e ∙ out_lines-blank d ∙ sym e

out_lines_idem : (ls : List Bytes) (d : ℕ) → out_lines (out_lines ls d) d ≡ out_lines ls d
out_lines_idem [] d = unfold out_lines in refl
out_lines_idem (l ∷ []) d = out_last_idem l d
out_lines_idem (l ∷ m ∷ ls) d =
    let f = fmt_line d l in
    let d' = scan_line_body l d in
    let r = out_lines (m ∷ ls) d' in
    let e = out_lines-cons l (m ∷ ls) d tt in
    ap (λ x. out_lines x d) e
    ∙ out_lines-cons f r d (out_lines-IsCons (m ∷ ls) d' tt)
    ∙ ap (λ x. x ∷ out_lines r (scan_line_body f d)) (fmt_line_idem d l)
    ∙ ap (λ k. f ∷ out_lines r k) (scan-fmt_line d l d)
    ∙ ap (λ x. f ∷ x) (out_lines_idem (m ∷ ls) d')
    ∙ sym e

-- The lines of the laid-out text.
lines-formatted : (src : Bytes) → split_lines (formatted src) ≡ out_lines (split_lines src) 0
lines-formatted src =
    let w = split_lines-AllLines src in
    split_lines-join_lines (out_lines (split_lines src) 0)
      (out_lines-IsCons (split_lines src) 0 w.1) (out_lines-AllLines (split_lines src) 0 w.0)

-- Text that has been laid out is laid out as it is.
pub formatted_idem : (src : Bytes) → formatted (formatted src) ≡ formatted src
formatted_idem src =
    ap (λ ls. join_lines (out_lines ls 0)) (lines-formatted src)
    ∙ ap join_lines (out_lines_idem (split_lines src) 0)

-- Formatting what has been formatted changes nothing, when the buffer had room the first time.
pub fmt_source_idem :
    (src : Bytes) → HasRoom src → fmt_source (Out.bytes (fmt_source src)) ≡ fmt_source src
fmt_source_idem src room =
    let e = fmt_source-formatted src room in
    ap (λ o. fmt_source (Out.bytes o)) e
    ∙ fmt_source-formatted (formatted src) (again (formatted src) (formatted_idem src))
    ∙ ap (λ x. record { bytes = x; overrun = false }) (formatted_idem src)
    ∙ sym e
  where
    again : (x : Bytes) → formatted x ≡ x → HasRoom x
    again x e = let k = ap length e in ground arith

-- The lines without their blanks, closed by an empty line.
abbrev pub closed : List Bytes → List Bytes
closed [] = []
closed (l ∷ []) = if ltb 0 (length l) then l ∷ [] ∷ [] else l ∷ []
closed (l ∷ m ∷ ls) = l ∷ closed (m ∷ ls)

closed-map : (ls : List Bytes) (d : ℕ) → map content (out_lines ls d) ≡ closed (map content ls)
closed-map [] d = unfold out_lines in refl
closed-map (l ∷ []) d = go (Bool-cases (has_content l))
  where
    go :
        (has_content l ≡ true) ⊎ (has_content l ≡ false)
        → map content (out_lines (l ∷ []) d) ≡ closed (map content (l ∷ []))
    go (inl full) =
        ap (map content) (out_last-full l d full)
        ∙ ap (λ x. x ∷ content [] ∷ []) (content-fmt_line d l)
        ∙ ap (λ x. content l ∷ x ∷ []) content-nil
        ∙ rw full refl
    go (inr empty) =
        ap (map content) (out_last-empty l d empty)
        ∙ ap (λ x. x ∷ []) (content-nil ∙ sym (nil_of_length (content l) empty))
        ∙ rw empty refl
closed-map (l ∷ m ∷ ls) d =
    ap (map content) (out_lines-cons l (m ∷ ls) d tt)
    ∙ ap (λ x. x ∷ map content (out_lines (m ∷ ls) (scan_line_body l d))) (content-fmt_line d l)
    ∙ ap (λ x. content l ∷ x) (closed-map (m ∷ ls) (scan_line_body l d))

-- Formatting keeps every line up to the blanks around it, and adds nothing but a newline behind a
-- last line that has content, when the buffer has room.
pub fmt_source-content :
    (src : Bytes)
    → HasRoom src
    → map content (split_lines (Out.bytes (fmt_source src)))
      ≡ closed (map content (split_lines src))
fmt_source-content src room =
    ap (λ o. map content (split_lines (Out.bytes o))) (fmt_source-formatted src room)
    ∙ ap (map content) (lines-formatted src)
    ∙ closed-map (split_lines src) 0
