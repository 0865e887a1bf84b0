-- ===== src/Parser/State.antt =====
-- src/parser.c: the parser's state, its failures and `advance`. `fail` leaves by `longjmp`, so each
-- step returns a result; the message of a failure is kept as its parts.
use parena.Prelude.{ℕ, none, some, Option}
use parena.Lexer.Cursor.{
  TokenType, Token, Lexer, LexError, Lexed, lparen, rparen, lbracket, rbracket, lbrace, rbrace,
  colon, at, symbol, keyword, string, number, eof,
}
use parena.Lexer.Next.{lexer_next}

pub record Parser : Type 0 where
  pub lx : Lexer
  pub cur : Token

-- Each carries the line that `fail` prints. `out_of_fuel` has no counterpart in the source.
pub data ParseError : Type 0 where
  lex_error : LexError → ℕ → ParseError
  unterminated_form : TokenType → ℕ → ParseError
  mismatched_bracket : TokenType → TokenType → ℕ → ParseError
  unexpected_close : TokenType → ℕ → ParseError
  unexpected_end : ℕ → ParseError
  out_of_fuel : ParseError

pub data Result {ℓ} (A : Type ℓ) : Type ℓ where
  ok : A → Result A
  err : ParseError → Result A

infixl 5 ◌>>=◌
abbrev pub ◌>>=◌ {ℓ κ} : {A : Type ℓ} {B : Type κ} → Result A → (A → Result B) → Result B
ok a >>= f = f a
err e >>= f = err e

abbrev pub check_error : Option LexError → Parser → Result Parser
check_error none p = ok p
check_error (some e) p = err (lex_error e p.cur.line)

abbrev pub set_token : Lexed → Result Parser
set_token r = check_error r.error (record { lx = r.lexer; cur = r.token })

unfoldable pub advance : Parser → Result Parser
advance p = set_token (lexer_next p.lx)

-- The position of a token type in the enumeration.
abbrev pub token_code : TokenType → ℕ
token_code lparen = 0
token_code rparen = 1
token_code lbracket = 2
token_code rbracket = 3
token_code lbrace = 4
token_code rbrace = 5
token_code colon = 6
token_code at = 7
token_code symbol = 8
token_code keyword = 9
token_code string = 10
token_code number = 11
token_code eof = 12
