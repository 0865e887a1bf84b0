-- ===== src/Fmt/Source.antt =====
-- src/fmt.c: `fmt_source`, with its output buffer.
use parena.Prelude.{
  ℕ, ◌+◌, ◌-◌, ◌*◌, Bool, false, not, ◌&&◌, ◌||◌, List, [], ◌∷◌, ◌++◌, ltb, leb, ◌==◌,
  if◌then◌else◌, Bytes, length, replicate, take,
}
use parena.Fmt.Lines.{scan_line_body, content, indent_cols, split_lines}

-- The first `out_len` bytes of the buffer, and whether a byte has been written past its `cap` bytes,
-- where C's behaviour is undefined.
pub record Out : Type 0 where
  pub bytes : Bytes
  pub overrun : Bool

-- out[out_len++] = c;
unfoldable pub put : ℕ → Out → ℕ → Out
put cap' o c = record {
  bytes = o.bytes ++ (c ∷ []);
  overrun = o.overrun || leb cap' (length o.bytes);
}

-- A copy of bytes that are known to fit.
abbrev pub copy_all : Out → Bytes → Out
copy_all o bs = record o { bytes = o.bytes ++ bs }

-- for (c = 0; c < n && out_len < cap; c++) out[out_len++] = bs[c];
abbrev pub copy_guarded : ℕ → Out → Bytes → Out
copy_guarded cap' o bs = record o { bytes = o.bytes ++ take (cap' - length o.bytes) bs }

-- The indent and the content of a line that has any.
abbrev pub put_content : ℕ → ℕ → Bytes → Out → Out
put_content cap' cols body o =
    let spaces = replicate cols b' ' in
    if ltb cap' (length o.bytes + cols + length body + 2)
    then copy_guarded cap' (copy_guarded cap' o spaces) body
    else copy_all (copy_all o spaces) body

unfoldable pub put_line : ℕ → ℕ → Bytes → Out → Out
put_line cap' depth line o =
    if ltb 0 (length (content line))
    then put_content cap' (indent_cols depth line) (content line) o
    else o

abbrev pub ends_in_newline : Bytes → Bool
ends_in_newline [] = false
ends_in_newline (c ∷ []) = c == b'\n'
ends_in_newline (c ∷ d ∷ cs) = ends_in_newline (d ∷ cs)

-- The end of the input: a newline if the last line had content and the output does not end in one.
unfoldable pub put_last : ℕ → Bytes → Out → Out
put_last cap' line o =
    if ltb 0 (length (content line)) && not (ends_in_newline o.bytes) then put cap' o b'\n' else o

-- The loop over the lines; the last is followed by the end of the input.
unfoldable pub fmt_lines : ℕ → List Bytes → ℕ → Out → Out
fmt_lines cap' [] depth o = o
fmt_lines cap' (l ∷ []) depth o = put_last cap' l (put_line cap' depth l o)
fmt_lines cap' (l ∷ m ∷ ls) depth o =
    fmt_lines cap' (m ∷ ls) (scan_line_body l depth) (put cap' (put_line cap' depth l o) b'\n')

-- out[out_len] = '\0';
abbrev pub terminate : ℕ → Out → Out
terminate cap' o = record o { overrun = o.overrun || leb cap' (length o.bytes) }

unfoldable pub fmt_source : Bytes → Out
fmt_source src =
    let cap' = length src * 2 + 4096 in
    terminate cap' (fmt_lines cap' (split_lines src) 0 (record { bytes = []; overrun = false }))
