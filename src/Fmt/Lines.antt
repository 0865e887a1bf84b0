-- ===== src/Fmt/Lines.antt =====
-- src/fmt.c: what is read of one line. A line is its bytes without the newline.
use parena.Prelude.{ℕ, ◌+◌, ◌-◌, ◌*◌, Bool, ◌||◌, List, [], ◌∷◌, ◌==◌, if◌then◌else◌, Bytes}

abbrev pub is_open : ℕ → Bool
is_open c = c == b'(' || c == b'[' || c == b'{'

abbrev pub is_closer : ℕ → Bool
is_closer c = c == b')' || c == b']' || c == b'}'

abbrev pub is_blank : ℕ → Bool
is_blank c = c == b' ' || c == b'\t'

abbrev pub is_trailing : ℕ → Bool
is_trailing c = is_blank c || c == 13

-- The depth after one more byte of code; it stops at 0.
abbrev pub step_depth : ℕ → ℕ → ℕ
step_depth c depth = if is_open c then depth + 1 else if is_closer c then depth - 1 else depth

-- `scan_line_body`: the depth behind a line. A comment runs to the end of the line, and so does a
-- string that the line does not close.
unfoldable mutual
  pub scan_line_body : Bytes → ℕ → ℕ
  scan_line_body [] depth = depth
  scan_line_body (c ∷ cs) depth =
      let code = scan_line_body cs (step_depth c depth) in
      let inside = scan_string cs depth in
      if c == b';' then depth else if c == 34 then inside else code

  pub scan_string : Bytes → ℕ → ℕ
  scan_string [] depth = depth
  scan_string (c ∷ []) depth = depth
  scan_string (c ∷ e ∷ cs) depth =
      let closed = scan_line_body (e ∷ cs) depth in
      let escaped = scan_string cs depth in
      let inside = scan_string (e ∷ cs) depth in
      if c == 34 then closed else if c == b'\\' then escaped else inside

-- The bytes behind the leading blanks.
unfoldable pub trim_start : Bytes → Bytes
trim_start [] = []
trim_start (c ∷ cs) = let more = trim_start cs in if is_blank c then more else c ∷ cs

abbrev pub drop_trailing : ℕ → Bytes → Bytes
drop_trailing c [] = if is_trailing c then [] else c ∷ []
drop_trailing c (d ∷ ds) = c ∷ d ∷ ds

unfoldable pub trim_end : Bytes → Bytes
trim_end [] = []
trim_end (c ∷ cs) = drop_trailing c (trim_end cs)

-- The bytes from `content_start` to `content_end`.
unfoldable pub content : Bytes → Bytes
content line = trim_end (trim_start line)

unfoldable pub count_closers : Bytes → ℕ
count_closers [] = 0
count_closers (c ∷ cs) = let more = count_closers cs in if is_closer c then more + 1 else 0

unfoldable pub leading_closer_count : Bytes → ℕ
leading_closer_count line = count_closers (trim_start line)

-- The columns of a line at a depth.
unfoldable pub indent_cols : ℕ → Bytes → ℕ
indent_cols depth line = (depth - leading_closer_count line) * 2

-- The lines of a source: one more than it has newlines.
abbrev pub onto_first : ℕ → List Bytes → List Bytes
onto_first c [] = (c ∷ []) ∷ []
onto_first c (l ∷ ls) = (c ∷ l) ∷ ls

unfoldable pub split_lines : Bytes → List Bytes
split_lines [] = [] ∷ []
split_lines (c ∷ cs) =
    let rest = split_lines cs in if c == b'\n' then [] ∷ rest else onto_first c rest
