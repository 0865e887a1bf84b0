-- ===== src/Lexer/Next.antt =====
-- src/lexer.c: `lexer_next`.
use parena.Prelude.{some, ◌==◌, if◌then◌else◌}
use parena.Lexer.Chars.{is_symbol_char}
use parena.Lexer.Cursor.{
  TokenType, Lexer, Lexed, lparen, rparen, lbracket, rbracket, lbrace, rbrace, colon, at, eof,
  unexpected_character, at_end, peek, peek2, advance, make_punct, ok_lexed,
}
use parena.Lexer.Scan.{
  skip_whitespace_and_comments, lex_keyword, looks_like_number_start, lex_number, lex_symbol,
}
use parena.Lexer.Strings.{lex_string}

-- advance(lx); return make_punct(type, line);
abbrev pub punct : TokenType → Lexer → Lexed
punct type lx = ok_lexed (make_punct type lx.line) (advance lx)

-- The `default` branch of the switch.
unfoldable pub lex_other : Lexer → Lexed
lex_other lx =
    if looks_like_number_start lx
    then lex_number lx
    else if is_symbol_char (peek lx)
    then lex_symbol lx
    else record {
      token = make_punct eof lx.line;
      error = some (unexpected_character (peek lx) lx.line);
      lexer = advance lx;
    }

-- The switch, at a lexer that is not at the end.
unfoldable pub lex_at : Lexer → Lexed
lex_at lx =
    let c = peek lx in
    if c == b'('
    then punct lparen lx
    else if c == b')'
    then punct rparen lx
    else if c == b'['
    then punct lbracket lx
    else if c == b']'
    then punct rbracket lx
    else if c == b'{'
    then punct lbrace lx
    else if c == b'}'
    then punct rbrace lx
    else if c == 34
    then lex_string lx
    else if c == b'@'
    then punct at lx
    else if c == b':'
    then (if is_symbol_char (peek2 lx) then lex_keyword lx else punct colon lx)
    else lex_other lx

unfoldable pub lexer_next : Lexer → Lexed
lexer_next lx =
    let l1 = skip_whitespace_and_comments lx in
    if at_end l1 then ok_lexed (make_punct eof l1.line) l1 else lex_at l1
