-- ===== src/Lexer/Strings.antt =====
-- src/lexer.c: string literals and their escapes. The loop takes one unit of fuel a round.
use parena.Prelude.{
  ℕ, zero, suc, ◌+◌, ◌*◌, Bool, ◌&&◌, ◌||◌, [], ◌∷◌, ◌++◌, none, some, ltb, leb, ◌==◌,
  if◌then◌else◌, Bytes, length,
}
use parena.Lexer.Chars.{hex_val, utf8_encode_cp}
use parena.Lexer.Cursor.{
  Lexer, LexError, Lexed, string, unterminated_string, invalid_unicode_escape, invalid_byte_escape,
  out_of_fuel, at_end, peek, bump, advance, make_text, ok_lexed, err_lexed,
}

-- sizeof(buf) - 1
abbrev pub buf_limit : ℕ
buf_limit = 4095

-- if (n < sizeof(buf) - 1) buf[n++] = c; a byte past the limit is dropped.
unfoldable pub push : Bytes → ℕ → Bytes
push buf c = if ltb (length buf) buf_limit then buf ++ (c ∷ []) else buf

unfoldable pub push_all : Bytes → Bytes → Bytes
push_all buf [] = buf
push_all buf (c ∷ cs) = push_all (push buf c) cs

-- The digits of `\u{...}`: the value, how many, and the lexer at the first byte that is not taken.
unfoldable pub unicode_digits : Bytes → ℕ → ℕ → ℕ → ℕ × ℕ × Lexer
unicode_digits [] line cp digits = (cp, digits, record { rest = []; line = line })
unicode_digits (c ∷ cs) line cp digits = elim (hex_val c) [
  | none ↦ (cp, digits, record { rest = c ∷ cs; line = line })
  | some h ↦
      let more = unicode_digits cs (bump line c) (cp * 16 + h) (digits + 1) in
      if ltb digits 7 then more else (cp, digits, record { rest = c ∷ cs; line = line })
]

-- The range test on `cp` and `digits`, negated.
unfoldable pub is_scalar_escape : ℕ → ℕ → Bool
is_scalar_escape digits cp =
    leb 1 digits && leb digits 6 && leb 1 cp && leb cp 0x10FFFF && (ltb cp 0xD800 || leb 0xE000 cp)

-- What one escape gives: bytes to append, or the error.
pub data Escape : Type 0 where
  bytes : Bytes → Lexer → Escape
  bad : LexError → Lexer → Escape

-- case 'u', past the letter.
unfoldable pub unicode_escape : Lexer → Escape
unicode_escape lx =
    if peek lx == b'{'
    then (let l1 = advance lx in
        let (cp, digits, l2) = unicode_digits l1.rest l1.line 0 0 in
        if peek l2 == b'}'
        then (if is_scalar_escape digits cp
            then bytes (utf8_encode_cp cp) (advance l2)
            else bad invalid_unicode_escape (advance l2))
        else bad invalid_unicode_escape l2)
    else bad invalid_unicode_escape lx

-- case 'x', past the letter. At the end of the input `peek` is NUL, which is no hex digit.
unfoldable pub byte_escape : Lexer → Escape
byte_escape lx = elim (hex_val (peek lx)) [
  | none ↦ bad invalid_byte_escape lx
  | some h1 ↦
      let l1 = advance lx in
      elim (hex_val (peek l1)) [
        | none ↦ bad invalid_byte_escape l1
        | some h2 ↦
            if h1 == 0 && h2 == 0
            then bad invalid_byte_escape l1
            else bytes ((h1 * 16 + h2) ∷ []) (advance l1)
      ]
]

-- The `switch (e)` behind a backslash; the lexer stands behind `e`.
unfoldable pub escape : ℕ → Lexer → Escape
escape e lx =
    if e == b'n'
    then bytes (10 ∷ []) lx
    else if e == b't'
    then bytes (9 ∷ []) lx
    else if e == b'r'
    then bytes (13 ∷ []) lx
    else if e == b'u'
    then unicode_escape lx
    else if e == b'x'
    then byte_escape lx
    else bytes (e ∷ []) lx

-- What follows an escape: the loop goes on, or the literal is in error.
abbrev pub after_escape : (Bytes → Lexer → Lexed) → Escape → Lexed
after_escape next (bytes bs l) = next bs l
after_escape next (bad e l) = err_lexed e l

-- The loop of `lex_string`, behind the opening quote, which stood on line `start`.
unfoldable pub string_loop : ℕ → ℕ → Lexer → Bytes → Lexed
string_loop zero start lx buf = err_lexed out_of_fuel lx
string_loop (suc fuel) start lx buf =
    let c = peek lx in
    let l1 = advance lx in
    let plain = string_loop fuel start l1 (push buf c) in
    let escaped =
      after_escape (λ bs l2. string_loop fuel start l2 (push_all buf bs))
        (escape (peek l1) (advance l1)) in
    if at_end lx
    then err_lexed (unterminated_string start) lx
    else if c == 34
    then ok_lexed (make_text string buf start) l1
    else if c == b'\\'
    then (if at_end l1 then plain else escaped)
    else plain

-- Each round takes a byte, so one round more than there are bytes is enough.
unfoldable pub lex_string : Lexer → Lexed
lex_string lx = let l1 = advance lx in string_loop (suc (length l1.rest)) lx.line l1 []
