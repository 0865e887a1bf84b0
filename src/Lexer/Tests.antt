-- ===== src/Lexer/Tests.antt =====
-- Runs of the tokenizer on small inputs.
use parena.Lexer.Cursor.{Lexer, advance, peek}
use parena.Lexer.Progress.{IsStep, lexer_next-IsStep}
use parena.Lexer.Escapes.{IsLiteral, lex_string-IsLiteral}
use parena.Lexer.Words.{IsNumber, IsKeyword, IsSymbol, lex_number-IsNumber, lex_word-IsWord}
use parena.Prelude.{true}
use parena.Prelude.{◌≡◌, refl, [], ◌∷◌, codes}
use parena.Lexer.Cursor.{number, string, symbol, lexer_init, make_text, ok_lexed}
use parena.Lexer.Next.{lexer_next, lex_at, lex_other}
use parena.Lexer.Scan.{
  skip_whitespace_and_comments, skip_blanks, advance_while, lex_number, lex_symbol, lex_keyword,
  looks_like_number_start,
}
use parena.Lexer.Strings.{
  lex_string, string_loop, escape, unicode_escape, byte_escape, unicode_digits, is_scalar_escape,
  push, push_all,
}
use parena.Lexer.Chars.{is_space, is_digit, is_structural, is_symbol_char, hex_val, utf8_encode_cp}

next_symbol :
    lexer_next (lexer_init (codes "; c\n  set! x"))
    ≡ ok_lexed (make_text symbol (codes "set!") 2) (record { rest = codes " x"; line = 2 })
unfolding lexer_next lexer_init skip_whitespace_and_comments skip_blanks lex_at lex_other lex_string
    lex_number lex_symbol lex_keyword string_loop escape unicode_escape byte_escape unicode_digits
    hex_val is_scalar_escape utf8_encode_cp push push_all advance_while is_space is_digit
    is_structural is_symbol_char looks_like_number_start
next_symbol = refl

next_number :
    lexer_next (lexer_init (codes "-12.5)"))
    ≡ ok_lexed (make_text number (codes "-12.5") 1) (record { rest = codes ")"; line = 1 })
unfolding lexer_next lexer_init skip_whitespace_and_comments skip_blanks lex_at lex_other lex_string
    lex_number lex_symbol lex_keyword string_loop escape unicode_escape byte_escape unicode_digits
    hex_val is_scalar_escape utf8_encode_cp push push_all advance_while is_space is_digit
    is_structural is_symbol_char looks_like_number_start
next_number = refl

next_string :
    lexer_next (lexer_init (codes "\"a\\u{e9}\\x41\\n\" "))
    ≡ ok_lexed
        (make_text string (97 ∷ 0xC3 ∷ 0xA9 ∷ 65 ∷ 10 ∷ []) 1)
        (record { rest = codes " "; line = 1 })
unfolding lexer_next lexer_init skip_whitespace_and_comments skip_blanks lex_at lex_other lex_string
    lex_number lex_symbol lex_keyword string_loop escape unicode_escape byte_escape unicode_digits
    hex_val is_scalar_escape utf8_encode_cp push push_all advance_while is_space is_digit
    is_structural is_symbol_char looks_like_number_start
next_string = refl

abbrev at_text : Lexer
at_text = record { rest = codes "\"a\\né\" b"; line = 3 }

abbrev at_keyword : Lexer
at_keyword = record { rest = codes ":region/scratch 64"; line = 1 }

abbrev at_number : Lexer
at_number = record { rest = codes "-12.5)"; line = 1 }

abbrev at_symbol : Lexer
at_symbol = record { rest = codes "set! x"; line = 2 }

lexer_next-IsStep_example : IsStep at_text (lexer_next at_text)
lexer_next-IsStep_example = lexer_next-IsStep at_text

lex_string-IsLiteral_example : IsLiteral (advance at_text) (lex_string at_text)
lex_string-IsLiteral_example = lex_string-IsLiteral at_text

starts_number : looks_like_number_start at_number ≡ true
unfolding looks_like_number_start is_digit
starts_number = refl

lex_number-IsNumber_example : IsNumber at_number (lex_number at_number)
lex_number-IsNumber_example = lex_number-IsNumber at_number starts_number

starts_symbol : is_symbol_char (peek at_symbol) ≡ true
unfolding is_symbol_char is_space is_structural
starts_symbol = refl

lex_word-IsWord_example :
    IsKeyword at_keyword (lex_keyword at_keyword) × IsSymbol at_symbol (lex_symbol at_symbol)
lex_word-IsWord_example = lex_word-IsWord at_keyword at_symbol refl refl starts_symbol
