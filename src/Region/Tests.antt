-- ===== src/Region/Tests.antt =====
-- Runs of the analyzer on small programs, from their text.
use parena.Region.Errors.{ScratchToBuffer}
use parena.Region.Only.{region_analyze-ScratchToBuffer}
use parena.Ast.{cons, symbol}
use parena.Region.Scope.{Scope}
use parena.Region.Calls.{Found, IsEscape, check_call_escape-IsEscape_iff}
use parena.Prelude.{
  ◌∷◌, c_str, bytes_eq, ◌≡◌, refl, [], ◌++◌, some, Option, codes, Bytes, strcmp_eq,
}
use parena.Ast.{Node, node, list, nil, node_new_atom, node_new_compound}
use parena.Lexer.Chars.{is_space, is_digit, is_structural, is_symbol_char}
use parena.Lexer.Cursor.{lexer_init}
use parena.Lexer.Next.{lexer_next, lex_at, lex_other}
use parena.Lexer.Scan.{
  skip_whitespace_and_comments, skip_blanks, advance_while, lex_keyword, lex_number, lex_symbol,
  looks_like_number_start,
}
use parena.Parser.Forms.{parse_form, parse_forms, parse_program}
use parena.Parser.State.{Result, ok, err, advance}
use parena.Region.Scope.{
  scope_bind, frame_lookup, scope_lookup, scratch, buffer, region_rank_for, is_symbol,
  is_call_named, find_keyword_child, annotated,
}
use parena.Region.Walk.{
  RegionError, check_sources, check_call_escape, arena_scope, alloc_rank, let_frame, walk,
  param_frame, analyze_defn, analyze_forms, region_analyze,
}

abbrev tree : Result Node → Node
tree (ok n) = n
tree (err e) = node list 0 [] nil

abbrev analyze_text : Bytes → Option RegionError
analyze_text src = region_analyze (tree (parse_program src))

abbrev escaping : Bytes
escaping =
    codes "(defn f [(b : A @ :region/buffer)]\n"
    ++ codes " (with-arena [s :region/scratch 64]\n  (let [x (alloc s T 1)]\n   (set b x))))"

escaping_lem :
    analyze_text escaping
    ≡ some (record { source = some scratch; destination = some buffer; line = 4 })
unfolding parse_program parse_forms parse_form advance node_new_atom node_new_compound lexer_next
    lexer_init skip_whitespace_and_comments skip_blanks lex_at lex_other lex_keyword lex_number
    lex_symbol advance_while is_space is_digit is_structural is_symbol_char looks_like_number_start
    scope_bind frame_lookup scope_lookup region_rank_for is_symbol is_call_named find_keyword_child
    annotated check_sources check_call_escape arena_scope alloc_rank let_frame walk param_frame
    analyze_defn analyze_forms region_analyze strcmp_eq
escaping_lem = refl

region_analyze-ScratchToBuffer_example :
    ScratchToBuffer (record { source = some scratch; destination = some buffer; line = 4 })
region_analyze-ScratchToBuffer_example =
    region_analyze-ScratchToBuffer (tree (parse_program escaping)) escaping_lem

-- `x` in the scope of a `let`, and `b` in that of the function.
abbrev two_scopes : Scope
two_scopes =
    (record { name = codes "x"; rank = some 0; region_name = some scratch } ∷ [])
    ∷ (record { name = codes "b"; rank = some 2; region_name = some buffer } ∷ [])
    ∷ []

abbrev b_node : Node
b_node = node symbol 1 (codes "b") nil

abbrev x_node : Node
x_node = node symbol 2 (codes "x") nil

set_reported : Found (
    check_call_escape
      (cons (node symbol 1 (codes "set") nil) (cons b_node (cons x_node nil)))
      two_scopes)
unfolding check_call_escape check_sources scope_lookup frame_lookup strcmp_eq c_str bytes_eq
set_reported = tt

check_call_escape-IsEscape_iff_example : IsEscape two_scopes b_node (cons x_node nil)
check_call_escape-IsEscape_iff_example =
    (check_call_escape-IsEscape_iff (node symbol 1 (codes "set") nil) b_node (cons x_node nil)
        two_scopes).0
      set_reported
