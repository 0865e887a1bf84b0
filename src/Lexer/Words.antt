-- ===== src/Lexer/Words.antt =====
-- src/lexer.c: numbers, keywords and symbols are of their kind, spelled as such, and as long as they
-- can be.
use parena.Prelude.{
  ℕ, ◌<◌, ◌≡◌, ◌⊎◌, inl, inr, refl, Bool, true, false, ◌&&◌, ◌||◌, [], ◌∷◌, ◌++◌, ◌==◌, arith,
  Bytes, length, Bool-cases,
}
use parena.Lexer.Chars.{is_digit, is_symbol_char}
use parena.Lexer.Cursor.{
  Lexer, Lexed, head_or_nul, second_or_nul, advance_past, keyword, symbol, number, peek, peek2,
  at_end, advance, bump,
}
use parena.Lexer.Scan.{
  advance_while, keyword_char, lex_keyword, lex_sign, lex_fraction, lex_number, lex_symbol,
  looks_like_number_start,
}
use parena.Lexer.Slices.{
  IsSlice, digit_not_nul, at_end-peek, advance_while_pos, lex_number-IsSlice, lex_keyword-IsSlice,
  lex_symbol-IsSlice,
}

abbrev pub AllOf : (ℕ → Bool) → Bytes → Type 0
AllOf p [] = Unit
AllOf p (c ∷ cs) = (p c ≡ true) × AllOf p cs

-- The run of such bytes ends at the lexer.
abbrev pub Halts : (ℕ → Bool) → Lexer → Type 0
Halts p l = (at_end l ≡ true) ⊎ (p (peek l) ≡ false)

-- A run of bytes that satisfy the test, as long as it can be.
advance_while-AllOf :
    (p : ℕ → Bool) (r : Bytes) (line : ℕ)
    → AllOf p (advance_while p r line).0 × Halts p (advance_while p r line).1
unfolding advance_while
advance_while-AllOf p [] line = (tt, inl refl)
advance_while-AllOf p (c ∷ cs) line =
    let (a, h) = advance_while-AllOf p cs (bump line c) in
    elim (Bool-cases (p c)) [ inl e ↦ rw e ((e, a), h) | inr e ↦ rw e (tt, inr e) ]

-- A keyword token: a colon and the longest run behind it.
pub record IsKeyword (lx : Lexer) (r : Lexed) : Type 0 where
  pub slice : IsSlice lx r
  pub of_type : r.token.type ≡ keyword
  pub on_line : r.token.line ≡ lx.line
  pub name : Bytes
  pub spelled : r.token.text ≡ b':' ∷ name
  pub chars : AllOf keyword_char name
  pub longest : Halts keyword_char r.lexer

-- A symbol token: the longest run of the bytes of symbols.
pub record IsSymbol (lx : Lexer) (r : Lexed) : Type 0 where
  pub slice : IsSlice lx r
  pub of_type : r.token.type ≡ symbol
  pub on_line : r.token.line ≡ lx.line
  pub chars : AllOf is_symbol_char r.token.text
  pub longest : Halts is_symbol_char r.lexer

-- At a colon, a keyword token is the colon with the longest run of bytes of symbols and slashes behind
-- it, and at a byte of a symbol, a symbol token is the longest run of such bytes. Each is of its type
-- and of the line where it starts, is the stretch of the source that has been passed over, with the
-- newlines in it counted, and there is no error.
pub lex_word-IsWord :
    (k s : Lexer)
    → peek k ≡ b':'
    → at_end s ≡ false
    → is_symbol_char (peek s) ≡ true
    → IsKeyword k (lex_keyword k) × IsSymbol s (lex_symbol s)
unfolding lex_keyword lex_symbol
lex_word-IsWord k s colon more word =
    let a = advance k in
    let (cs, h) = advance_while-AllOf keyword_char a.rest a.line in
    let (ds, l) = advance_while-AllOf is_symbol_char s.rest s.line in
    (
      record {
        slice = lex_keyword-IsSlice k (at_end-peek k (ground arith));
        of_type = refl;
        on_line = refl;
        name = (advance_while keyword_char a.rest a.line).0;
        spelled = rw colon refl;
        chars = cs;
        longest = h;
      },
      record {
        slice = lex_symbol-IsSlice s more word;
        of_type = refl;
        on_line = refl;
        chars = ds;
        longest = l;
      },
    )

-- An optional sign.
pub data IsSign : Bytes → Type 0 where
  no_sign : IsSign []
  minus : IsSign (b'-' ∷ [])
  plus : IsSign (b'+' ∷ [])

-- An optional fraction, which ends at the lexer and is not left out where there is one.
pub data IsFraction : Bytes → Lexer → Type 0 where
  no_fraction :
      {l : Lexer}
      → (peek l == b'.' && is_digit (peek2 l)) ≡ false
      → Halts is_digit l
      → IsFraction [] l
  a_fraction :
      {l : Lexer} {ds : Bytes}
      → AllOf is_digit ds
      → 0 < length ds
      → Halts is_digit l
      → IsFraction (b'.' ∷ ds) l

pub record IsNumber (lx : Lexer) (r : Lexed) : Type 0 where
  pub slice : IsSlice lx r
  pub of_type : r.token.type ≡ number
  pub on_line : r.token.line ≡ lx.line
  pub sign : Bytes
  pub whole : Bytes
  pub fraction : Bytes
  pub spelled : r.token.text ≡ sign ++ (whole ++ fraction)
  pub is_sign : IsSign sign
  pub digits : AllOf is_digit whole
  pub some_digit : 0 < length whole
  pub is_fraction : IsFraction fraction r.lexer

digit_run :
    (l : Lexer) → is_digit (peek l) ≡ true → 0 < length (advance_while is_digit l.rest l.line).0
digit_run l d = advance_while_pos is_digit l (at_end-peek l (digit_not_nul (peek l) d)) d

peek-advance : (l : Lexer) → peek (advance l) ≡ peek2 l
peek-advance l = go l.rest
  where
    go : (r : Bytes) → head_or_nul (advance_past r l.line).rest ≡ second_or_nul r
    go [] = refl
    go (c ∷ cs) = refl

lex_sign-IsSign : (lx : Lexer) → IsSign (lex_sign lx).0
lex_sign-IsSign lx = elim (Bool-cases (peek lx == b'-')) [
  | inl e ↦ let f : peek lx ≡ b'-' = ground arith in rw f minus
  | inr e ↦ elim (Bool-cases (peek lx == b'+')) [
    | inl p ↦ let f : peek lx ≡ b'+' = ground arith in rw f plus
    | inr p ↦ rw (e, p) no_sign
  ]
]

-- Where a number starts, a digit stands behind the sign.
lex_sign-digit :
    (lx : Lexer) → looks_like_number_start lx ≡ true → is_digit (peek (lex_sign lx).1) ≡ true
unfolding looks_like_number_start is_digit
lex_sign-digit lx h = elim (Bool-cases (peek lx == b'-' || peek lx == b'+')) [
  | inl e ↦ rw (e, peek-advance lx) (ground arith)
  | inr e ↦ rw e (ground arith)
]

lex_fraction-IsFraction :
    (l : Lexer) → Halts is_digit l → IsFraction (lex_fraction l).0 (lex_fraction l).1
lex_fraction-IsFraction l h = elim (Bool-cases (peek l == b'.' && is_digit (peek2 l))) [
  | inl e ↦
      let a = advance l in
      let (ds, k) = advance_while-AllOf is_digit a.rest a.line in
      let d : is_digit (peek a) ≡ true = rw (peek-advance l) (ground arith) in
      rw e (a_fraction ds (digit_run a d) k)
  | inr e ↦ rw e (no_fraction e h)
]

-- Where a number starts, its token is of the type of numbers and of the line where it starts, and is
-- spelled as an optional sign, digits, and an optional dot with digits, as many digits as there are and
-- no fraction left out; it is the stretch of the source that has been passed over, with the newlines in
-- it counted, and there is no error.
pub lex_number-IsNumber :
    (lx : Lexer) → looks_like_number_start lx ≡ true → IsNumber lx (lex_number lx)
unfolding lex_number
lex_number-IsNumber lx h =
    let l = (lex_sign lx).1 in
    let (ds, k) = advance_while-AllOf is_digit l.rest l.line in
    record {
      slice = lex_number-IsSlice lx h;
      of_type = refl;
      on_line = refl;
      sign = (lex_sign lx).0;
      whole = (advance_while is_digit l.rest l.line).0;
      fraction = (lex_fraction (advance_while is_digit l.rest l.line).1).0;
      spelled = refl;
      is_sign = lex_sign-IsSign lx;
      digits = ds;
      some_digit = digit_run l (lex_sign-digit lx h);
      is_fraction = lex_fraction-IsFraction (advance_while is_digit l.rest l.line).1 k;
    }
