-- ===== src/Lexer/Cursor.antt =====
-- src/lexer.h and the cursor of src/lexer.c. A `Lexer` holds the bytes from `pos` to `len` in
-- place of the buffer and the two offsets; `line` is unbounded. The arena stands in Arena.
use parena.Prelude.{
  ℕ, ◌+◌, Bool, true, false, [], ◌∷◌, Option, none, some, ◌==◌, if◌then◌else◌, Bytes,
}

pub data TokenType : Type 0 where
  lparen rparen lbracket rbracket lbrace rbrace colon at symbol keyword string number eof :
      TokenType

-- `text` is empty where the source has NULL; its length is `text_len`.
pub record Token : Type 0 where
  pub type : TokenType
  pub text : Bytes
  pub line : ℕ

pub record Lexer : Type 0 where
  pub rest : Bytes
  pub line : ℕ

-- The messages of `*out_error`. `out_of_fuel` has no counterpart in the source.
pub data LexError : Type 0 where
  unterminated_string : ℕ → LexError
  invalid_unicode_escape : LexError
  invalid_byte_escape : LexError
  unexpected_character : ℕ → ℕ → LexError
  out_of_fuel : LexError

-- What `lexer_next` hands back: the token, `*out_error`, and the lexer it leaves behind.
pub record Lexed : Type 0 where
  pub token : Token
  pub error : Option LexError
  pub lexer : Lexer

unfoldable pub lexer_init : Bytes → Lexer
lexer_init src = record { rest = src; line = 1 }

abbrev pub is_nil : Bytes → Bool
is_nil [] = true
is_nil (c ∷ cs) = false

abbrev pub head_or_nul : Bytes → ℕ
head_or_nul [] = 0
head_or_nul (c ∷ cs) = c

abbrev pub second_or_nul : Bytes → ℕ
second_or_nul [] = 0
second_or_nul (c ∷ cs) = head_or_nul cs

abbrev pub at_end : Lexer → Bool
at_end lx = is_nil lx.rest

abbrev pub peek : Lexer → ℕ
peek lx = head_or_nul lx.rest

abbrev pub peek2 : Lexer → ℕ
peek2 lx = second_or_nul lx.rest

-- The line after a byte.
abbrev pub bump : ℕ → ℕ → ℕ
bump line c = if c == b'\n' then line + 1 else line

-- No caller advances at the end of the input, where the source would read past it.
abbrev pub advance_past : Bytes → ℕ → Lexer
advance_past [] line = record { rest = []; line = line }
advance_past (c ∷ cs) line = record { rest = cs; line = bump line c }

abbrev pub advance : Lexer → Lexer
advance lx = advance_past lx.rest lx.line

abbrev pub make_punct : TokenType → ℕ → Token
make_punct type line = record { type = type; text = []; line = line }

abbrev pub make_text : TokenType → Bytes → ℕ → Token
make_text type text line = record { type = type; text = text; line = line }

abbrev pub ok_lexed : Token → Lexer → Lexed
ok_lexed t lx = record { token = t; error = none; lexer = lx }

-- An error comes with an end-of-file token at the lexer's line.
abbrev pub err_lexed : LexError → Lexer → Lexed
err_lexed e lx = record { token = make_punct eof lx.line; error = some e; lexer = lx }
