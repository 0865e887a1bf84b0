-- ===== src/Lexer/Progress.antt =====
-- `lexer_next` as its callers see it: it passes over the source, takes at least a byte for each
-- token, reports errors of string literals alone, and ends only at the end of the input.
use parena.Prelude.{
  ℕ, ◌<◌, ◌≡◌, ◌≢◌, ◌⊎◌, inl, inr, refl, sym, true, false, [], ◌∷◌, arith, none, ◌==◌, Bytes,
  length, if_cases,
}
use mathlib.Core.Path.{subst}
use parena.Lexer.Chars.{is_space, is_structural, is_symbol_char}
use parena.Lexer.Cursor.{
  TokenType, Lexer, Lexed, lparen, rparen, lbracket, rbracket, lbrace, rbrace, colon, at, eof,
  at_end, peek, peek2, bump,
}
use parena.Lexer.Scan.{
  skip_blanks, skip_comment, skip_whitespace_and_comments, looks_like_number_start, lex_keyword,
  lex_number, lex_symbol,
}
use parena.Lexer.Strings.{lex_string}
use parena.Lexer.Next.{punct, lex_other, lex_at, lexer_next}
use parena.Lexer.Position.{
  Passes, Passes-refl, Passes-trans, Passes-advance, Passes-length, length-advance,
  skip_blanks-Passes,
}
use parena.Lexer.Slices.{
  Slices-Passes, IsSlice, lex_keyword-IsSlice, lex_number-IsSlice, lex_symbol-IsSlice,
}
use parena.Lexer.Escapes.{IsStringError, lex_string-IsLiteral}

-- What holds of the token read at `lx`.
pub record IsStep (lx : Lexer) (r : Lexed) : Type 0 where
  pub passes : Passes lx r.lexer
  pub shorter : r.token.type ≢ eof → length r.lexer.rest < length lx.rest
  pub in_class : IsStringError r.error
  pub ends : r.token.type ≡ eof → r.error ≡ none → r.lexer.rest ≡ []
  pub error_is_eof : r.error ≢ none → r.token.type ≡ eof

-- A token that has taken a byte.
IsStep-token :
    {lx : Lexer} (r : Lexed)
    → Passes lx r.lexer
    → length r.lexer.rest < length lx.rest
    → r.token.type ≢ eof
    → r.error ≡ none
    → IsStep lx r
IsStep-token r p s t e = record {
  passes = p;
  shorter = λ _. s;
  in_class = subst IsStringError (sym e) tt;
  ends = λ q. absurd (t q);
  error_is_eof = λ q. absurd (q e);
}

punct-IsStep :
    (type : TokenType) (lx : Lexer) → type ≢ eof → at_end lx ≡ false → IsStep lx (punct type lx)
punct-IsStep type lx t h =
    IsStep-token (punct type lx) (Passes-advance lx) (length-advance lx h) t refl

IsSlice-IsStep : {lx : Lexer} (r : Lexed) → IsSlice lx r → IsStep lx r
IsSlice-IsStep r s = IsStep-token r (Slices-Passes s.0) s.1 s.2 s.3

abbrev Stops : Lexer → Type 0
Stops l =
    (at_end l ≡ true)
    ⊎ ((peek l == 0) ≡ true)
    ⊎ (is_space (peek l) ≡ false) × ((peek l == b';') ≡ false)

-- Where the blanks and comments stop: at the end, at a NUL, or at a byte that is neither.
mutual
  unfolding skip_blanks

  skip_blanks-mutual : (r : Bytes) (line : ℕ) → Stops (skip_blanks r line)
  skip_blanks-mutual [] line = inl refl
  skip_blanks-mutual (c ∷ cs) line =
      if_cases Stops (c == 0) (λ e. inr (inl e))
        λ _.
          if_cases Stops (is_space c) (λ _. skip_blanks-mutual cs (bump line c))
            λ s.
              if_cases Stops (c == b';') (λ _. skip_comment-mutual cs line) (λ e. inr (inr (s, e)))

  skip_comment-mutual : (r : Bytes) (line : ℕ) → Stops (skip_comment r line)
  skip_comment-mutual [] line = inl refl
  skip_comment-mutual (c ∷ cs) line =
      if_cases Stops (c == b'\n') (λ _. skip_blanks-mutual cs (bump line c))
        (λ _. skip_comment-mutual cs line)

-- A byte that no case of the switch takes is a symbol character.
other_is_symbol :
    (c : ℕ)
    → (c == 0) ≡ true ⊎ (is_space c ≡ false) × ((c == b';') ≡ false)
    → (c == b'(') ≡ false
    → (c == b')') ≡ false
    → (c == b'[') ≡ false
    → (c == b']') ≡ false
    → (c == b'{') ≡ false
    → (c == b'}') ≡ false
    → (c == 34) ≡ false
    → (c == b'@') ≡ false
    → (c == b':') ≡ false
    → is_symbol_char c ≡ true
unfolding is_symbol_char is_structural is_space
other_is_symbol c z a b d e f g h i j = ground arith

lex_other-IsStep :
    (lx : Lexer) → at_end lx ≡ false → is_symbol_char (peek lx) ≡ true → IsStep lx (lex_other lx)
unfolding lex_other
lex_other-IsStep lx h s =
    if_cases (IsStep lx) (looks_like_number_start lx)
      (λ n. IsSlice-IsStep (lex_number lx) (lex_number-IsSlice lx n))
      λ _.
        if_cases (IsStep lx) (is_symbol_char (peek lx))
          (λ _. IsSlice-IsStep (lex_symbol lx) (lex_symbol-IsSlice lx h s)) (λ e. cc)

lex_string-IsStep : (lx : Lexer) → at_end lx ≡ false → IsStep lx (lex_string lx)
lex_string-IsStep lx h =
    let l = lex_string-IsLiteral lx in
    record {
      passes = Passes-trans (Passes-advance lx) l.passes;
      shorter = λ _. omega (arith, Passes-length l.passes, length-advance lx h);
      in_class = l.in_class;
      ends = λ t e. elim l.kind [ inl k ↦ cc (t, k.0) | inr k ↦ absurd (k.1 e) ];
      error_is_eof = λ e. elim l.kind [ inl k ↦ absurd (e k.1) | inr k ↦ k.0 ];
    }

lex_at-IsStep :
    (lx : Lexer)
    → at_end lx ≡ false
    → (peek lx == 0) ≡ true ⊎ (is_space (peek lx) ≡ false) × ((peek lx == b';') ≡ false)
    → IsStep lx (lex_at lx)
unfolding lex_at
lex_at-IsStep lx h z =
    let P = IsStep lx in
    let c = peek lx in
    if_cases P (c == b'(') (λ _. punct-IsStep lparen lx (λ q. cc) h)
      λ n1.
        if_cases P (c == b')') (λ _. punct-IsStep rparen lx (λ q. cc) h)
          λ n2.
            if_cases P (c == b'[') (λ _. punct-IsStep lbracket lx (λ q. cc) h)
              λ n3.
                if_cases P (c == b']') (λ _. punct-IsStep rbracket lx (λ q. cc) h)
                  λ n4.
                    if_cases P (c == b'{') (λ _. punct-IsStep lbrace lx (λ q. cc) h)
                      λ n5.
                        if_cases P (c == b'}') (λ _. punct-IsStep rbrace lx (λ q. cc) h)
                          λ n6.
                            if_cases P (c == 34) (λ _. lex_string-IsStep lx h)
                              λ n7.
                                if_cases P (c == b'@') (λ _. punct-IsStep at lx (λ q. cc) h)
                                  λ n8.
                                    if_cases P (c == b':')
                                      (λ _.
                                        if_cases P (is_symbol_char (peek2 lx))
                                          (λ _.
                                            IsSlice-IsStep (lex_keyword lx)
                                              (lex_keyword-IsSlice lx h))
                                          (λ _. punct-IsStep colon lx (λ q. cc) h))
                                      λ n9.
                                        lex_other-IsStep lx h
                                          (other_is_symbol c z n1 n2 n3 n4 n5 n6 n7 n8 n9)

skip-Stops : (lx : Lexer) → Stops (skip_whitespace_and_comments lx)
unfolding skip_whitespace_and_comments
skip-Stops lx = skip_blanks-mutual lx.rest lx.line

at_end-nil : (l : Lexer) → at_end l ≡ true → l.rest ≡ []
at_end-nil l h = go l.rest h
  where
    go : (r : Bytes) → at_end (record { rest = r; line = 0 }) ≡ true → r ≡ []
    go [] e = refl
    go (c ∷ cs) e = cc

pub skip-Passes : (lx : Lexer) → Passes lx (skip_whitespace_and_comments lx)
unfolding skip_whitespace_and_comments
skip-Passes lx = skip_blanks-Passes lx.rest lx.line

IsStep-after : {lx l : Lexer} {r : Lexed} → Passes lx l → IsStep l r → IsStep lx r
IsStep-after p s = record {
  passes = Passes-trans p s.passes;
  shorter = λ t. omega (arith, Passes-length p, s.shorter t);
  in_class = s.in_class;
  ends = s.ends;
  error_is_eof = s.error_is_eof;
}

stopped :
    (l : Lexer)
    → at_end l ≡ false
    → Stops l
    → (peek l == 0) ≡ true ⊎ (is_space (peek l) ≡ false) × ((peek l == b';') ≡ false)
stopped l h (inl e) = cc
stopped l h (inr s) = s

-- The token that `lexer_next` returns at any lexer: the bytes up to the lexer it leaves are a
-- stretch of the source, with the newlines in it counted; a token takes at least one byte; the
-- errors are those of string literals, so the branch for an unexpected character is never taken;
-- an end-of-file token with no error stands at the end of the input.
pub lexer_next-IsStep : (lx : Lexer) → IsStep lx (lexer_next lx)
unfolding lexer_next
lexer_next-IsStep lx =
    let l1 = skip_whitespace_and_comments lx in
    IsStep-after (skip-Passes lx) (
      if_cases (IsStep l1) (at_end l1)
        (λ e. record {
          passes = Passes-refl l1;
          shorter = λ t. absurd (t refl);
          in_class = tt;
          ends = λ _ _. at_end-nil l1 e;
          error_is_eof = λ q. refl;
        })
        (λ h. lex_at-IsStep l1 h (stopped l1 h (skip-Stops lx))))
