-- ===== src/Parser/Tests.antt =====
-- Runs of the reader on small inputs.
use parena.Parser.Ensures.{Ends}
use parena.Parser.Sound.{Parses, parse_program_total}
use parena.Parser.Decides.{parse_program-eq-ok_iff}
use parena.Prelude.{◌≡◌, refl, [], codes}
use parena.Ast.{node, nil, cons, list, vec, symbol, number, node_new_atom, node_new_compound}
use parena.Lexer.Chars.{is_space, is_digit, is_structural, is_symbol_char}
use parena.Lexer.Cursor.{lexer_init, rparen, rbracket}
use parena.Lexer.Next.{lexer_next, lex_at, lex_other}
use parena.Lexer.Scan.{
  skip_whitespace_and_comments, skip_blanks, advance_while, lex_number, lex_symbol,
  looks_like_number_start,
}
use parena.Parser.Forms.{parse_form, parse_forms, parse_program}
use parena.Parser.State.{ok, err, mismatched_bracket, unterminated_form, advance}

parse_nested :
    parse_program (codes "(a [1]\n b)")
    ≡ ok (
        node list 1 [] (
          cons
            (node list 1 [] (
              cons (node symbol 1 (codes "a") nil) (
                cons
                  (node vec 1 [] (cons (node number 1 (codes "1") nil) nil))
                  (cons (node symbol 2 (codes "b") nil) nil))))
            nil))
unfolding parse_program parse_forms parse_form advance node_new_atom node_new_compound lexer_next
    lexer_init skip_whitespace_and_comments skip_blanks lex_at lex_other lex_number lex_symbol
    advance_while is_space is_digit is_structural is_symbol_char looks_like_number_start
parse_nested = refl

parse_mismatched : parse_program (codes "(a\n]") ≡ err (mismatched_bracket rparen rbracket 2)
unfolding parse_program parse_forms parse_form advance node_new_atom node_new_compound lexer_next
    lexer_init skip_whitespace_and_comments skip_blanks lex_at lex_other lex_number lex_symbol
    advance_while is_space is_digit is_structural is_symbol_char looks_like_number_start
parse_mismatched = refl

parse_unterminated : parse_program (codes "\n((a)") ≡ err (unterminated_form rparen 2)
unfolding parse_program parse_forms parse_form advance node_new_atom node_new_compound lexer_next
    lexer_init skip_whitespace_and_comments skip_blanks lex_at lex_other lex_number lex_symbol
    advance_while is_space is_digit is_structural is_symbol_char looks_like_number_start
parse_unterminated = refl

parse_program-eq-ok_iff_example : Parses (codes "(a [1]\n b)") (
    node list 1 [] (
      cons
        (node list 1 [] (
          cons (node symbol 1 (codes "a") nil) (
            cons
              (node vec 1 [] (cons (node number 1 (codes "1") nil) nil))
              (cons (node symbol 2 (codes "b") nil) nil))))
        nil))
parse_program-eq-ok_iff_example = (parse_program-eq-ok_iff (codes "(a [1]\n b)") _).0 parse_nested

parse_program_total_example : Ends (parse_program (codes "((a [1]\n b)"))
parse_program_total_example = parse_program_total (codes "((a [1]\n b)")
