-- ===== src/Lexer/Slices.antt =====
-- The tokens that are slices of the source: what they pass over is their text.
use parena.Prelude.{
  ℕ, ◌+◌, ◌<◌, ◌≡◌, ◌≢◌, none, refl, ◌∙◌, ap, suc, inl, inr, Bool-cases, Bool, true, false, ◌&&◌,
  ◌||◌, [], ◌∷◌, ◌++◌, append_assoc, arith, ◌==◌, Bytes, length, length-append, if_cases,
}
use mathlib.Core.Path.{subst}
use parena.Lexer.Chars.{is_digit, is_symbol_char}
use parena.Lexer.Cursor.{Lexer, Lexed, eof, peek, peek2, bump, advance, at_end}
use parena.Lexer.Scan.{
  advance_while, keyword_char, lex_keyword, lex_sign, lex_fraction, lex_number, lex_symbol,
  looks_like_number_start,
}
use parena.Lexer.Position.{newlines, newlines-append, Passes}

-- `l'` stands behind the bytes `text` of `l`, and has counted the newlines in them.
pub record Slices (l : Lexer) (text : Bytes) (l' : Lexer) : Type 0 where
  pub splits : l.rest ≡ text ++ l'.rest
  pub counts : l'.line ≡ l.line + newlines text

pub Slices-Passes : {l l' : Lexer} {text : Bytes} → Slices l text l' → Passes l l'
Slices-Passes {text} s = record { taken = text; splits = s.splits; counts = s.counts }

pub Slices-nil : (l : Lexer) → Slices l [] l
Slices-nil l = record { splits = refl; counts = omega arith }

pub Slices-trans : {l m n : Lexer} {a b : Bytes} → Slices l a m → Slices m b n → Slices l (a ++ b) n
Slices-trans {a} {b} s t = record {
  splits = s.splits ∙ ap (λ r. a ++ r) t.splits ∙ rw append_assoc;
  counts = omega (arith, s.counts, t.counts, newlines-append a b);
}

length-append_bytes : (a b : Bytes) → length (a ++ b) ≡ length a + length b
length-append_bytes = length-append

pub Slices-length :
    {l l' : Lexer} {text : Bytes} → Slices l text l' → length l.rest ≡ length text + length l'.rest
Slices-length {l'} {text} s = omega (arith, ap length s.splits, length-append_bytes text l'.rest)

pub Slices-cons :
    (c : ℕ) (cs : Bytes) (line : ℕ)
    → Slices
        (record { rest = c ∷ cs; line = line })
        (c ∷ [])
        (record { rest = cs; line = bump line c })
Slices-cons c cs line = record { splits = refl; counts = ground arith }

pub Slices-advance : (l : Lexer) → at_end l ≡ false → Slices l (peek l ∷ []) (advance l)
Slices-advance l h = go l.rest l.line h
  where
    go :
        (r : Bytes) (n : ℕ)
        → at_end (record { rest = r; line = n }) ≡ false
        → Slices
            (record { rest = r; line = n })
            (peek (record { rest = r; line = n }) ∷ [])
            (advance (record { rest = r; line = n }))
    go [] n e = cc
    go (c ∷ cs) n e = Slices-cons c cs n

pub advance_while-Slices :
    (p : ℕ → Bool) (r : Bytes) (line : ℕ)
    → Slices
        (record { rest = r; line = line })
        (advance_while p r line).0
        (advance_while p r line).1
unfolding advance_while
advance_while-Slices p [] line = Slices-nil _
advance_while-Slices p (c ∷ cs) line =
    if_cases (λ (w : Bytes × Lexer). Slices (record { rest = c ∷ cs; line = line }) w.0 w.1) (p c)
      (λ _. Slices-trans (Slices-cons c cs line) (advance_while-Slices p cs (bump line c)))
      (λ _. Slices-nil _)

-- A byte that is no NUL shows that the lexer is not at the end.
pub at_end-peek : (l : Lexer) → (peek l == 0) ≡ false → at_end l ≡ false
at_end-peek l h = go l.rest h
  where
    go :
        (r : Bytes)
        → (peek (record { rest = r; line = 0 }) == 0) ≡ false
        → at_end (record { rest = r; line = 0 }) ≡ false
    go [] e = cc
    go (c ∷ cs) e = refl

-- What the three slicing tokens have in common.
abbrev pub IsSlice : Lexer → Lexed → Type 0
IsSlice lx r =
    Slices lx r.token.text r.lexer
    × (length r.lexer.rest < length lx.rest)
    × (r.token.type ≢ eof)
    × (r.error ≡ none)

pub advance_while_pos :
    (p : ℕ → Bool) (l : Lexer)
    → at_end l ≡ false
    → p (peek l) ≡ true
    → 0 < length (advance_while p l.rest l.line).0
advance_while_pos p l h e = go l.rest h e
  where
    go :
        (r : Bytes)
        → at_end (record { rest = r; line = 0 }) ≡ false
        → p (peek (record { rest = r; line = 0 })) ≡ true
        → 0 < length (advance_while p r l.line).0
    go [] h e = cc
    go (c ∷ cs) h e = unfold advance_while in ground arith

slice :
    (lx : Lexer) (r : Lexed)
    → Slices lx r.token.text r.lexer
    → 0 < length r.token.text
    → r.token.type ≢ eof
    → r.error ≡ none
    → IsSlice lx r
slice lx r s pos t e = (s, omega (arith, Slices-length s), t, e)

-- At any byte, a keyword token is the stretch of the source that has been passed over, not empty,
-- with the newlines in it counted, and there is no error.
pub lex_keyword-IsSlice : (lx : Lexer) → at_end lx ≡ false → IsSlice lx (lex_keyword lx)
unfolding lex_keyword
lex_keyword-IsSlice lx h =
    slice lx (lex_keyword lx)
      (Slices-trans (Slices-advance lx h) (advance_while-Slices keyword_char _ _)) (omega arith)
      (λ q. cc) refl

pub digit_not_nul : (c : ℕ) → is_digit c ≡ true → (c == 0) ≡ false
unfolding is_digit
digit_not_nul c h = ground arith

lex_sign-Slices : (lx : Lexer) → Slices lx (lex_sign lx).0 (lex_sign lx).1
lex_sign-Slices lx =
    if_cases (λ (w : Bytes × Lexer). Slices lx w.0 w.1) (peek lx == b'-' || peek lx == b'+')
      (λ e. Slices-advance lx (at_end-peek lx (ground arith))) (λ _. Slices-nil lx)

Slices-advance_at : (lx : Lexer) (c : ℕ) → (peek lx ≡ suc c) → Slices lx (suc c ∷ []) (advance lx)
Slices-advance_at lx c e =
    subst (λ d. Slices lx (d ∷ []) (advance lx)) e
      (Slices-advance lx (at_end-peek lx (ground arith)))

lex_fraction-Slices : (lx : Lexer) → Slices lx (lex_fraction lx).0 (lex_fraction lx).1
lex_fraction-Slices lx =
    if_cases (λ (w : Bytes × Lexer). Slices lx w.0 w.1) (peek lx == b'.' && is_digit (peek2 lx))
      (λ e.
        Slices-trans (Slices-advance_at lx 45 (ground arith)) (advance_while-Slices is_digit _ _))
      (λ _. Slices-nil lx)

number_text_pos :
    (lx : Lexer) (fraction : Bytes)
    → looks_like_number_start lx ≡ true
    → 0
      < length (
          (lex_sign lx).0
          ++ ((advance_while is_digit (lex_sign lx).1.rest (lex_sign lx).1.line).0 ++ fraction))
unfolding looks_like_number_start
number_text_pos lx fraction h = elim (Bool-cases (peek lx == b'-' || peek lx == b'+')) [
  | inl e ↦ rw e (omega arith)
  | inr e ↦ rw e (
      let d : is_digit (peek lx) ≡ true = ground arith in
      omega (
        arith,
        length-append_bytes (advance_while is_digit lx.rest lx.line).0 fraction,
        advance_while_pos is_digit lx (at_end-peek lx (digit_not_nul (peek lx) d)) d,
      ))
]

-- Where a number starts, its token is the stretch of the source that has been passed over, not
-- empty, with the newlines in it counted, and there is no error.
pub lex_number-IsSlice :
    (lx : Lexer) → looks_like_number_start lx ≡ true → IsSlice lx (lex_number lx)
unfolding lex_number looks_like_number_start
lex_number-IsSlice lx h =
    slice lx (lex_number lx)
      (Slices-trans (lex_sign-Slices lx)
        (Slices-trans (advance_while-Slices is_digit _ _) (lex_fraction-Slices _)))
      (number_text_pos lx _ h) (λ q. cc) refl

-- At a byte of a symbol, the token is the stretch of the source that has been passed over, not empty,
-- with the newlines in it counted, and there is no error.
pub lex_symbol-IsSlice :
    (lx : Lexer) → at_end lx ≡ false → is_symbol_char (peek lx) ≡ true → IsSlice lx (lex_symbol lx)
unfolding lex_symbol
lex_symbol-IsSlice lx h s =
    slice lx (lex_symbol lx) (advance_while-Slices is_symbol_char lx.rest lx.line)
      (advance_while_pos is_symbol_char lx h s) (λ q. cc) refl
