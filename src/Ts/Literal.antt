-- ===== src/Ts/Literal.antt =====
-- src/emit_ts.c: `ts_string_literal`, and how TypeScript reads what it writes.
use parena.Prelude.{
  leb, ◌&&◌, ==_iff, ltb→lt, refl, inr, inl, Bool-cases, append_assoc, true, ap, ◌*◌, none, arith,
  some, ◌≡◌, Option, ◌<◌, ℕ, ◌+◌, ◌-◌, ◌/◌, ◌%◌, [], ◌∷◌, ◌++◌, ltb, ◌==◌, if◌then◌else◌, Bytes,
  codes,
}

-- A digit of `%x`.
abbrev pub hex_digit : ℕ → ℕ
hex_digit d = if ltb d 10 then d + b'0' else d - 10 + b'a'

-- The text for one byte; a byte below 32 has no more than two digits of `%04x`.
unfoldable pub escaped : ℕ → Bytes
escaped c =
    if c == b'"'
    then codes "\\\""
    else if c == b'\\'
    then codes "\\\\"
    else if c == 10
    then codes "\\n"
    else if c == 13
    then codes "\\r"
    else if c == 9
    then codes "\\t"
    else if ltb c 32
    then codes "\\u00" ++ (hex_digit (c / 16) ∷ hex_digit (c % 16) ∷ [])
    else c ∷ []

unfoldable pub escape_all : Bytes → Bytes
escape_all [] = []
escape_all (c ∷ cs) = escaped c ++ escape_all cs

unfoldable pub ts_string_literal : Bytes → Bytes
ts_string_literal s = b'"' ∷ (escape_all s ++ (b'"' ∷ []))

-- How TypeScript reads a literal: the state between two characters, and the value of the digits so far.
pub data Reading : Type 0 where
  plain escape : Reading
  hex : ℕ → ℕ → Reading

abbrev pub prefixed : ℕ → Option Bytes → Option Bytes
prefixed c none = none
prefixed c (some s) = some (c ∷ s)

abbrev pub ended : Bytes → Option Bytes
ended [] = some []
ended (c ∷ cs) = none

-- The value of a hexadecimal digit: 0 to 9, A to F or a to f, and nothing else.
unfoldable pub hex_value : ℕ → Option ℕ
hex_value c =
    if leb b'0' c && leb c b'9'
    then some (c - b'0')
    else if leb b'A' c && leb c b'F'
    then some (c - b'A' + 10)
    else if leb b'a' c && leb c b'f'
    then some (c - b'a' + 10)
    else none

-- What a digit makes of the value so far.
abbrev pub with_digit : Option ℕ → (ℕ → Option Bytes) → Option Bytes
with_digit none f = none
with_digit (some d) f = f d

-- The string behind the opening quote, which nothing follows; `none` if it is no literal.
unfoldable pub read_rest : Reading → Bytes → Option Bytes
read_rest r [] = none
read_rest plain (c ∷ cs) =
    let more = read_rest plain cs in
    let special = read_rest escape cs in
    if c == b'"'
    then ended cs
    else if c == b'\\'
    then special
    else if c == 10
    then none
    else if c == 13
    then none
    else prefixed c more
read_rest escape (c ∷ cs) =
    let more = read_rest plain cs in
    let digits = read_rest (hex 3 0) cs in
    if c == b'"'
    then prefixed b'"' more
    else if c == b'\\'
    then prefixed b'\\' more
    else if c == b'n'
    then prefixed 10 more
    else if c == b'r'
    then prefixed 13 more
    else if c == b't'
    then prefixed 9 more
    else if c == b'u'
    then digits
    else none
read_rest (hex n v) (c ∷ cs) =
    let more = read_rest plain cs in
    with_digit (hex_value c) (λ d.
      let digits = read_rest (hex (n - 1) (v * 16 + d)) cs in
      if n == 0 then prefixed (v * 16 + d) more else digits)

abbrev pub read_literal : Bytes → Option Bytes
read_literal [] = none
read_literal (c ∷ cs) = if c == b'"' then read_rest plain cs else none

hex_value-hex_digit : (d : ℕ) → d < 16 → hex_value (hex_digit d) ≡ some d
unfolding hex_value
hex_value-hex_digit d h = ground arith

read-hex :
    (c : ℕ) (rest : Bytes)
    → c < 32
    → read_rest plain (codes "\\u00" ++ (hex_digit (c / 16) ∷ hex_digit (c % 16) ∷ rest))
      ≡ prefixed c (read_rest plain rest)
unfolding read_rest hex_value
read-hex c rest h =
    let high = hex_value-hex_digit (c / 16) (omega arith) in
    let low = hex_value-hex_digit (c % 16) (omega arith) in
    rw (high, low) (ap (λ v. prefixed v (read_rest plain rest)) (omega arith))

at_code :
    (k c : ℕ) (rest : Bytes)
    → read_rest plain (escaped k ++ rest) ≡ prefixed k (read_rest plain rest)
    → (c == k) ≡ true
    → read_rest plain (escaped c ++ rest) ≡ prefixed c (read_rest plain rest)
at_code k c rest e h = rw ((==_iff c k).0 h) e

-- What is written for one byte is read as that byte.
read-escaped :
    (c : ℕ) (rest : Bytes) → read_rest plain (escaped c ++ rest) ≡ prefixed c (read_rest plain rest)
unfolding escaped read_rest
read-escaped c rest = elim (Bool-cases (c == b'"')) [
  | inl h ↦ at_code b'"' c rest refl h
  | inr quote ↦ elim (Bool-cases (c == b'\\')) [
    | inl h ↦ at_code b'\\' c rest refl h
    | inr slash ↦ elim (Bool-cases (c == 10)) [
      | inl h ↦ at_code 10 c rest refl h
      | inr line ↦ elim (Bool-cases (c == 13)) [
        | inl h ↦ at_code 13 c rest refl h
        | inr return ↦ elim (Bool-cases (c == 9)) [
          | inl h ↦ at_code 9 c rest refl h
          | inr tab ↦ elim (Bool-cases (ltb c 32)) [
            | inl low ↦
                rw (quote, slash, line, return, tab, low) (read-hex c rest (ltb→lt c 32 low))
            | inr high ↦
                rw (quote, slash, line, return, tab, high) rw (quote, slash, line, return) refl
          ]
        ]
      ]
    ]
  ]
]

read-escape_all : (s : Bytes) → read_rest plain (escape_all s ++ (b'"' ∷ [])) ≡ some s
unfolding escape_all
read-escape_all [] = unfold read_rest in refl
read-escape_all (c ∷ cs) =
    rw (append_assoc (escaped c) (escape_all cs) (b'"' ∷ []), read-escaped c, read-escape_all cs)
      refl

-- Every string of bytes, quotes, backslashes, line ends and control characters among them, is
-- written as a literal that TypeScript reads as the string, and nothing stands behind it.
pub read_literal-ts_string_literal : (s : Bytes) → read_literal (ts_string_literal s) ≡ some s
unfolding ts_string_literal
read_literal-ts_string_literal s = read-escape_all s
