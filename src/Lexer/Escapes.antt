-- ===== src/Lexer/Escapes.antt =====
-- String literals pass over the source, within their fuel, and keep to the buffer.
use parena.Prelude.{
  ℕ, zero, suc, ◌+◌, ◌*◌, ◌≤◌, ◌<◌, ◌≡◌, ◌≢◌, ◌⊎◌, refl, ◌&&◌, [], ◌∷◌, ◌++◌, arith, none, some,
  Option, ltb, ◌==◌, Bytes, length, length-append, if_cases, Option-cases, inl, inr,
}
use parena.Lexer.Chars.{hex_val}
use parena.Lexer.Cursor.{
  Lexer, LexError, Lexed, string, eof, unterminated_string, invalid_unicode_escape,
  invalid_byte_escape, at_end, peek, bump, advance,
}
use parena.Lexer.Strings.{
  buf_limit, push, push_all, unicode_digits, is_scalar_escape, Escape, bytes, bad, unicode_escape,
  byte_escape, escape, after_escape, string_loop, lex_string,
}
use parena.Lexer.Position.{
  Passes, Passes-refl, Passes-trans, Passes-cons, Passes-advance, Passes-length, length-advance,
}

unicode_digits-Passes :
    (r : Bytes) (line cp digits : ℕ)
    → Passes (record { rest = r; line = line }) (unicode_digits r line cp digits).2
unfolding unicode_digits
unicode_digits-Passes [] line cp digits = Passes-refl _
unicode_digits-Passes (c ∷ cs) line cp digits = elim (Option-cases (hex_val c)) [
  | inl e ↦ rw (e, unicode_digits) (Passes-refl _)
  | inr (h, e) ↦
      rw (e, unicode_digits)
        (if_cases (λ (w : ℕ × ℕ × Lexer). Passes (record { rest = c ∷ cs; line = line }) w.2)
          (ltb digits 7)
          (λ _.
            Passes-trans (Passes-cons c cs line)
              (unicode_digits-Passes cs (bump line c) (cp * 16 + h) (digits + 1)))
          (λ _. Passes-refl _))
]

-- An escape passes over the source, and any error it reports is one of the two of escapes.
-- No error, or one of the three that string literals report.
abbrev pub IsStringError : Option LexError → Type 0
IsStringError none = Unit
IsStringError (some (unterminated_string n)) = Unit
IsStringError (some invalid_unicode_escape) = Unit
IsStringError (some invalid_byte_escape) = Unit
IsStringError (some _) = ⊥

abbrev pub escape_lexer : Escape → Lexer
escape_lexer (bytes bs l) = l
escape_lexer (bad e l) = l

abbrev pub escape_error : Escape → Option LexError
escape_error (bytes bs l) = none
escape_error (bad e l) = some e

pub record EscapePasses (lx : Lexer) (e : Escape) : Type 0 where
  pub passes : Passes lx (escape_lexer e)
  pub in_class : IsStringError (escape_error e)

taken_bytes : (lx : Lexer) (bs : Bytes) → EscapePasses lx (bytes bs lx)
taken_bytes lx bs = record { passes = Passes-refl lx; in_class = tt }

unicode_escape-EscapePasses : (lx : Lexer) → EscapePasses lx (unicode_escape lx)
unfolding unicode_escape
unicode_escape-EscapePasses lx =
    let l1 = advance lx in
    let l2 = (unicode_digits l1.rest l1.line 0 0).2 in
    let p : Passes lx l2 = Passes-trans (Passes-advance lx) (unicode_digits-Passes _ _ 0 0) in
    if_cases (EscapePasses lx) (peek lx == b'{')
      (λ _.
        if_cases (EscapePasses lx) (peek l2 == b'}')
          (λ _.
            if_cases (EscapePasses lx)
              (is_scalar_escape (unicode_digits l1.rest l1.line 0 0).1
                (unicode_digits l1.rest l1.line 0 0).0)
              (λ _. record { passes = Passes-trans p (Passes-advance l2); in_class = tt })
              (λ _. record { passes = Passes-trans p (Passes-advance l2); in_class = tt }))
          (λ _. record { passes = p; in_class = tt }))
      (λ _. record { passes = Passes-refl lx; in_class = tt })

byte_escape-EscapePasses : (lx : Lexer) → EscapePasses lx (byte_escape lx)
unfolding byte_escape
byte_escape-EscapePasses lx = elim (Option-cases (hex_val (peek lx))) [
  | inl e ↦ rw (e, byte_escape) (record { passes = Passes-refl lx; in_class = tt })
  | inr (h1, e) ↦ elim (Option-cases (hex_val (peek (advance lx)))) [
    | inl e' ↦ rw (e, e', byte_escape) (record { passes = Passes-advance lx; in_class = tt })
    | inr (h2, e') ↦
        rw (e, e', byte_escape)
          (if_cases (EscapePasses lx) (h1 == 0 && h2 == 0)
            (λ _. record { passes = Passes-advance lx; in_class = tt })
            (λ _. record {
              passes = Passes-trans (Passes-advance lx) (Passes-advance (advance lx));
              in_class = tt;
            }))
  ]
]

pub escape-EscapePasses : (e : ℕ) (lx : Lexer) → EscapePasses lx (escape e lx)
unfolding escape
escape-EscapePasses e lx =
    let P = EscapePasses lx in
    let plain = λ (bs : Bytes). taken_bytes lx bs in
    if_cases P (e == b'n') (λ _. plain _)
      λ _.
        if_cases P (e == b't') (λ _. plain _)
          λ _.
            if_cases P (e == b'r') (λ _. plain _)
              λ _.
                if_cases P (e == b'u') (λ _. unicode_escape-EscapePasses lx)
                  λ _. if_cases P (e == b'x') (λ _. byte_escape-EscapePasses lx) (λ _. plain _)

length-append_bytes : (a b : Bytes) → length (a ++ b) ≡ length a + length b
length-append_bytes = length-append

push_bounds : (buf : Bytes) (c : ℕ) → length buf ≤ buf_limit → length (push buf c) ≤ buf_limit
unfolding push
push_bounds buf c h = ground (arith, length-append_bytes buf (c ∷ []))

push_all_bounds : (buf cs : Bytes) → length buf ≤ buf_limit → length (push_all buf cs) ≤ buf_limit
unfolding push_all
push_all_bounds buf [] h = h
push_all_bounds buf (c ∷ cs) h = push_all_bounds (push buf c) cs (push_bounds buf c h)

-- What holds of a literal whose loop starts at `lx`: it passes over the source, its text fits the
-- buffer, and it gives a string or an error of its own; so the fuel was enough.
pub record IsLiteral (lx : Lexer) (r : Lexed) : Type 0 where
  pub passes : Passes lx r.lexer
  pub fits : length r.token.text ≤ buf_limit
  pub in_class : IsStringError r.error
  pub kind : (r.token.type ≡ string) × (r.error ≡ none) ⊎ (r.token.type ≡ eof) × (r.error ≢ none)

Literal-after : {lx l : Lexer} {r : Lexed} → Passes lx l → IsLiteral l r → IsLiteral lx r
Literal-after p h = record {
  passes = Passes-trans p h.passes;
  fits = h.fits;
  kind = h.kind;
  in_class = h.in_class;
}

after_escape-IsLiteral :
    (next : Bytes → Lexer → Lexed) {lx : Lexer} (e : Escape)
    → EscapePasses lx e
    → ((bs : Bytes) (l : Lexer) → Passes lx l → IsLiteral l (next bs l))
    → IsLiteral lx (after_escape next e)
after_escape-IsLiteral next (bytes bs l) p k = Literal-after p.passes (k bs l p.passes)
after_escape-IsLiteral next (bad e l) p k = record {
  passes = p.passes;
  fits = omega arith;
  in_class = p.in_class;
  kind = inr (refl, λ q. cc);
}

string_loop-IsLiteral :
    (fuel start : ℕ) (lx : Lexer) (buf : Bytes)
    → length lx.rest < fuel
    → length buf ≤ buf_limit
    → IsLiteral lx (string_loop fuel start lx buf)
unfolding string_loop
string_loop-IsLiteral zero start lx buf f h = absurd (omega arith)
string_loop-IsLiteral (suc fuel) start lx buf f h =
    let l1 = advance lx in
    let P = IsLiteral lx in
    let past = Passes-advance lx in
    if_cases P (at_end lx)
      (λ _. record {
        passes = Passes-refl lx;
        fits = omega arith;
        in_class = tt;
        kind = inr (refl, λ q. cc);
      })
      λ more.
        let shorter = length-advance lx more in
        let plain = λ (_ : Unit {0}). Literal-after past (
          string_loop-IsLiteral fuel start l1 (push buf (peek lx)) (omega (arith, shorter))
            (push_bounds buf (peek lx) h)) in
        if_cases P (peek lx == 34)
          (λ _. record { passes = past; fits = h; in_class = tt; kind = inl (refl, refl) })
          λ _.
            if_cases P (peek lx == b'\\')
              (λ _.
                if_cases P (at_end l1) (λ _. plain tt)
                  λ _. Literal-after past (
                    Literal-after (Passes-advance l1) (
                      after_escape-IsLiteral _ _ (escape-EscapePasses (peek l1) (advance l1))
                        λ bs l2 q.
                          string_loop-IsLiteral fuel start l2 (push_all buf bs)
                            (omega
                              (arith, shorter, Passes-length q, Passes-length (Passes-advance l1)))
                            (push_all_bounds buf bs h))))
              (λ _. plain tt)

-- Whatever the bytes behind an opening quote, the reading of a string literal passes over a stretch
-- of the source, keeps at most 4095 bytes of text, and ends in a string token with no error or in an
-- end-of-file token with an error of string literals.
pub lex_string-IsLiteral : (lx : Lexer) → IsLiteral (advance lx) (lex_string lx)
unfolding lex_string
lex_string-IsLiteral lx =
    string_loop-IsLiteral _ lx.line (advance lx) [] (omega arith) (omega arith)
