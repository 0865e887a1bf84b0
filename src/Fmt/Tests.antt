-- ===== src/Fmt/Tests.antt =====
-- Runs of the formatter.
use parena.Prelude.{arith, map}
use parena.Fmt.Lines.{content}
use parena.Fmt.Stable.{fmt_line}
use parena.Fmt.Layout.{out_lines, join_lines}
use parena.Fmt.Whole.{
  formatted, HasRoom, closed, fmt_source-formatted, fmt_source_idem, fmt_source-content,
}
use parena.Prelude.{ℕ, zero, suc, ◌≡◌, refl, true, false, [], ◌∷◌, Bytes, codes}
use parena.Fmt.Lines.{
  scan_line_body, trim_start, trim_end, content, count_closers, leading_closer_count, indent_cols,
  split_lines,
}
use parena.Fmt.Source.{Out, put, put_line, put_last, fmt_lines, fmt_source}

fmt_nested :
    fmt_source (codes "(a\n   (b \";(\"  \n) ; (\n  )")
    ≡ record { bytes = codes "(a\n  (b \";(\"\n  ) ; (\n)\n"; overrun = false }
unfolding fmt_source fmt_lines put_line put_last put split_lines scan_line_body trim_start trim_end
    content count_closers leading_closer_count indent_cols
fmt_nested = refl

-- `n` lines that each open a form.
abbrev openers : ℕ → Bytes
openers zero = []
openers (suc n) = b'(' ∷ 10 ∷ openers n

-- Seventy nested forms, one to a line, outgrow the buffer, and the newlines behind them are written
-- past its end.
fmt_overrun : Out.overrun (fmt_source (openers 70)) ≡ true
unfolding fmt_source fmt_lines put_line put_last put split_lines scan_line_body trim_start trim_end
    content count_closers leading_closer_count indent_cols
fmt_overrun = refl

-- A string over two lines is not kept: its second line loses its blanks.
fmt_string_lines :
    fmt_source (codes "\"a\n   b\"\n") ≡ record { bytes = codes "\"a\nb\"\n"; overrun = false }
unfolding fmt_source fmt_lines put_line put_last put split_lines scan_line_body trim_start trim_end
    content count_closers leading_closer_count indent_cols
fmt_string_lines = refl

abbrev source : Bytes
source = codes "(a\n   (b  \n) ; (\n  )"

source-HasRoom : HasRoom source
unfolding out_lines join_lines fmt_line split_lines scan_line_body content trim_start trim_end
    count_closers leading_closer_count indent_cols
source-HasRoom = omega arith

fmt_source-formatted_example :
    fmt_source source ≡ record { bytes = formatted source; overrun = false }
fmt_source-formatted_example = fmt_source-formatted source source-HasRoom

fmt_source_idem_example : fmt_source (Out.bytes (fmt_source source)) ≡ fmt_source source
fmt_source_idem_example = fmt_source_idem source source-HasRoom

fmt_source-content_example :
    map content (split_lines (Out.bytes (fmt_source source)))
    ≡ closed (map content (split_lines source))
fmt_source-content_example = fmt_source-content source source-HasRoom
