-- ===== src/Lexer/Scan.antt =====
-- src/lexer.c: skipping of blanks and comments, and the tokens that are slices of the source.
use parena.Prelude.{ℕ, Bool, ◌&&◌, ◌||◌, [], ◌∷◌, ◌++◌, ◌==◌, if◌then◌else◌, Bytes}
use parena.Lexer.Chars.{is_space, is_digit, is_symbol_char}
use parena.Lexer.Cursor.{
  Lexer, Lexed, keyword, number, symbol, peek, peek2, bump, advance, make_text, ok_lexed,
}

-- The two loops of `skip_whitespace_and_comments`. Inside a comment the newline that ends it is
-- the next blank of the outer loop.
unfoldable mutual
  pub skip_blanks : Bytes → ℕ → Lexer
  skip_blanks [] line = record { rest = []; line = line }
  skip_blanks (c ∷ cs) line =
      let blank = skip_blanks cs (bump line c) in
      let comment = skip_comment cs line in
      if c == 0
      then record { rest = c ∷ cs; line = line }
      else if is_space c
      then blank
      else if c == b';'
      then comment
      else record { rest = c ∷ cs; line = line }

  pub skip_comment : Bytes → ℕ → Lexer
  skip_comment [] line = record { rest = []; line = line }
  skip_comment (c ∷ cs) line =
      let ended = skip_blanks cs (bump line c) in
      let inside = skip_comment cs line in if c == b'\n' then ended else inside

unfoldable pub skip_whitespace_and_comments : Lexer → Lexer
skip_whitespace_and_comments lx = skip_blanks lx.rest lx.line

-- while (!at_end(lx) && p(peek(lx))) advance(lx): the bytes passed over, and the lexer after them.
unfoldable pub advance_while : (ℕ → Bool) → Bytes → ℕ → Bytes × Lexer
advance_while p [] line = ([], record { rest = []; line = line })
advance_while p (c ∷ cs) line =
    let more = advance_while p cs (bump line c) in
    if p c then (c ∷ more.0, more.1) else ([], record { rest = c ∷ cs; line = line })

abbrev pub keyword_char : ℕ → Bool
keyword_char c = is_symbol_char c || c == b'/'

unfoldable pub lex_keyword : Lexer → Lexed
lex_keyword lx =
    let l1 = advance lx in
    let (name, l2) = advance_while keyword_char l1.rest l1.line in
    ok_lexed (make_text keyword (peek lx ∷ name) lx.line) l2

unfoldable pub looks_like_number_start : Lexer → Bool
looks_like_number_start lx =
    is_digit (peek lx) || ((peek lx == b'-' || peek lx == b'+') && is_digit (peek2 lx))

-- The optional sign of `lex_number`.
abbrev pub lex_sign : Lexer → Bytes × Lexer
lex_sign lx = if peek lx == b'-' || peek lx == b'+' then (peek lx ∷ [], advance lx) else ([], lx)

-- The optional fraction of `lex_number`.
abbrev pub lex_fraction : Lexer → Bytes × Lexer
lex_fraction lx =
    if peek lx == b'.' && is_digit (peek2 lx)
    then (let l1 = advance lx in
        let (ds, l2) = advance_while is_digit l1.rest l1.line in (b'.' ∷ ds, l2))
    else ([], lx)

unfoldable pub lex_number : Lexer → Lexed
lex_number lx =
    let (sign, l1) = lex_sign lx in
    let (whole, l2) = advance_while is_digit l1.rest l1.line in
    let (fraction, l3) = lex_fraction l2 in
    ok_lexed (make_text number (sign ++ (whole ++ fraction)) lx.line) l3

unfoldable pub lex_symbol : Lexer → Lexed
lex_symbol lx =
    let (name, l1) = advance_while is_symbol_char lx.rest lx.line in
    ok_lexed (make_text symbol name lx.line) l1
