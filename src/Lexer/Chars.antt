-- ===== src/Lexer/Chars.antt =====
-- src/lexer.c: the classes of characters and the UTF-8 encoder. A byte is a number below 256; the
-- casts to `unsigned char` in the source make its tests those of the byte.
use parena.Prelude.{
  ℕ, ◌+◌, ◌-◌, ◌/◌, ◌%◌, Bool, true, false, ◌&&◌, ◌||◌, [], ◌∷◌, Option, none, some, ltb, leb, ◌==◌,
  if◌then◌else◌, Bytes,
}

-- `isspace` of the C locale: tab, newline, vertical tab, form feed, carriage return, space.
unfoldable pub is_space : ℕ → Bool
is_space c = (leb 9 c && leb c 13) || c == 32

unfoldable pub is_digit : ℕ → Bool
is_digit c = leb b'0' c && leb c b'9'

-- The ten characters that the `switch` of `is_symbol_char` names.
unfoldable pub is_structural : ℕ → Bool
is_structural c =
    (c == b'(' || c == b')' || c == b'[' || c == b']' || c == b'{' || c == b'}')
    || (c == b':' || c == b'@' || c == 34 || c == b';')

unfoldable pub is_symbol_char : ℕ → Bool
is_symbol_char c = if is_space c then false else if is_structural c then false else true

-- The source's -1 is `none`.
unfoldable pub hex_val : ℕ → Option ℕ
hex_val ch =
    if leb b'0' ch && leb ch b'9'
    then some (ch - b'0')
    else if leb b'a' ch && leb ch b'f'
    then some (ch - b'a' + 10)
    else if leb b'A' ch && leb ch b'F'
    then some (ch - b'A' + 10)
    else none

-- The operands of each `|` in the source share no bit at the values that its tests let through
-- (the caller has checked that `cp` is at most 0x10FFFF), so `|` is `+`; `>> 6` is `/ 64` and
-- `& 0x3F` is `% 64`.
unfoldable pub utf8_encode_cp : ℕ → Bytes
utf8_encode_cp cp =
    if ltb cp 0x80
    then cp ∷ []
    else if ltb cp 0x800
    then (0xC0 + cp / 64) ∷ (0x80 + cp % 64) ∷ []
    else if ltb cp 0x10000
    then (0xE0 + cp / 4096) ∷ (0x80 + cp / 64 % 64) ∷ (0x80 + cp % 64) ∷ []
    else (0xF0 + cp / 262144)
      ∷ (0x80 + cp / 4096 % 64)
      ∷ (0x80 + cp / 64 % 64)
      ∷ (0x80 + cp % 64)
      ∷ []
