-- ===== src/Lexer/Position.antt =====
-- Every step of the tokenizer passes over a stretch of the source and counts the newlines in it.
use parena.Prelude.{
  ℕ, ◌+◌, ◌≤◌, ◌<◌, ◌≡◌, refl, ◌∙◌, ap, true, false, [], ◌∷◌, ◌++◌, append_assoc, arith, ◌==◌,
  if◌then◌else◌, Bytes, length, length-append, if_cases,
}
use parena.Lexer.Chars.{is_space}
use parena.Lexer.Cursor.{Lexer, bump, advance, at_end}
use parena.Lexer.Scan.{skip_blanks, skip_comment}

abbrev pub newlines : Bytes → ℕ
newlines [] = 0
newlines (c ∷ cs) = (if c == b'\n' then 1 else 0) + newlines cs

pub newlines-append : (a b : Bytes) → newlines (a ++ b) ≡ newlines a + newlines b
newlines-append [] b = omega arith
newlines-append (c ∷ a) b = omega (arith, newlines-append a b)

-- `l'` stands further on in the source than `l`, with its line counted on.
pub record Passes (l l' : Lexer) : Type 0 where
  pub taken : Bytes
  pub splits : l.rest ≡ taken ++ l'.rest
  pub counts : l'.line ≡ l.line + newlines taken

pub Passes-refl : (l : Lexer) → Passes l l
Passes-refl l = record { taken = []; splits = refl; counts = omega arith }

pub Passes-trans : {l m n : Lexer} → Passes l m → Passes m n → Passes l n
Passes-trans p q = record {
  taken = p.taken ++ q.taken;
  splits = p.splits ∙ ap (λ t. p.taken ++ t) q.splits ∙ rw append_assoc;
  counts = omega (arith, p.counts, q.counts, newlines-append p.taken q.taken);
}

pub Passes-cons :
    (c : ℕ) (cs : Bytes) (line : ℕ)
    → Passes (record { rest = c ∷ cs; line = line }) (record { rest = cs; line = bump line c })
Passes-cons c cs line = record { taken = c ∷ []; splits = refl; counts = ground arith }

Passes-cons_same :
    (c : ℕ) (cs : Bytes) (line : ℕ)
    → (c == b'\n') ≡ false
    → Passes (record { rest = c ∷ cs; line = line }) (record { rest = cs; line = line })
Passes-cons_same c cs line h = record { taken = c ∷ []; splits = refl; counts = ground arith }

semicolon_lem : (c : ℕ) → (c == b';') ≡ true → (c == b'\n') ≡ false
semicolon_lem c h = ground arith

pub Passes-advance : (l : Lexer) → Passes l (advance l)
Passes-advance l = go l.rest l.line
  where
    go :
        (r : Bytes) (n : ℕ)
        → Passes (record { rest = r; line = n }) (advance (record { rest = r; line = n }))
    go [] n = Passes-refl _
    go (c ∷ cs) n = Passes-cons c cs n

length-append_bytes : (a b : Bytes) → length (a ++ b) ≡ length a + length b
length-append_bytes = length-append

pub Passes-length : {l l' : Lexer} → Passes l l' → length l'.rest ≤ length l.rest
Passes-length {l} {l'} p = omega (arith, ap length p.splits, length-append_bytes p.taken l'.rest)

pub length-advance : (l : Lexer) → at_end l ≡ false → length (advance l).rest < length l.rest
length-advance l h = go l.rest l.line h
  where
    go :
        (r : Bytes) (n : ℕ)
        → at_end (record { rest = r; line = n }) ≡ false
        → length (advance (record { rest = r; line = n })).rest < length r
    go [] n e = cc
    go (c ∷ cs) n e = omega arith

mutual
  unfolding skip_blanks

  skip_blanks-mutual :
      (r : Bytes) (line : ℕ) → Passes (record { rest = r; line = line }) (skip_blanks r line)
  skip_blanks-mutual [] line = Passes-refl _
  skip_blanks-mutual (c ∷ cs) line =
      let P = Passes (record { rest = c ∷ cs; line = line }) in
      if_cases P (c == 0) (λ _. Passes-refl _)
        λ _.
          if_cases P (is_space c)
            (λ _. Passes-trans (Passes-cons c cs line) (skip_blanks-mutual cs (bump line c)))
            λ _.
              if_cases P (c == b';')
                (λ e.
                  Passes-trans (Passes-cons_same c cs line (semicolon_lem c e))
                    (skip_comment-mutual cs line))
                (λ _. Passes-refl _)

  skip_comment-mutual :
      (r : Bytes) (line : ℕ) → Passes (record { rest = r; line = line }) (skip_comment r line)
  skip_comment-mutual [] line = Passes-refl _
  skip_comment-mutual (c ∷ cs) line =
      let P = Passes (record { rest = c ∷ cs; line = line }) in
      if_cases P (c == b'\n')
        (λ _. Passes-trans (Passes-cons c cs line) (skip_blanks-mutual cs (bump line c)))
        λ e. Passes-trans (Passes-cons_same c cs line e) (skip_comment-mutual cs line)

-- Skipping passes over the source.
pub skip_blanks-Passes :
    (r : Bytes) (line : ℕ) → Passes (record { rest = r; line = line }) (skip_blanks r line)
skip_blanks-Passes r line = skip_blanks-mutual r line
