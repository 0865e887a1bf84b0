-- ===== src/Parser/Ensures.antt =====
-- Postconditions of a run of the parser that kept within its fuel.
use mathlib.Core.Path.{subst}
use parena.Prelude.{◌≡◌}
use parena.Lexer.Cursor.{LexError}
use parena.Parser.State.{ParseError, lex_error, out_of_fuel, Result, ok, err, ◌>>=◌}

-- An error that the source has too: neither loop of the model ran out of fuel, that of the parser or
-- that of the tokenizer.
abbrev pub InFuel : ParseError → Type 0
InFuel out_of_fuel = ⊥
InFuel (lex_error LexError.out_of_fuel line) = ⊥
InFuel e = Unit

-- A run that came to its end.
abbrev pub Ends {ℓ} : {A : Type ℓ} → Result A → Type 0
Ends (ok a) = Unit
Ends (err e) = InFuel e

pub data Ensures {ℓ κ} {A : Type ℓ} (P : A → Type κ) : Result A → Type (ℓ ⊔ κ) where
  holds : {a : A} → P a → Ensures P (ok a)
  rejected : {e : ParseError} → InFuel e → Ensures P (err e)

module _ {ℓ κ} {A : Type ℓ} {P : A → Type κ} where
  pub Ensures-ok : {r : Result A} {a : A} → Ensures P r → r ≡ ok a → P a
  Ensures-ok (holds h) e = subst P (cc) h
  Ensures-ok (rejected n) e = cc

  pub Ensures-Ends : {r : Result A} → Ensures P r → Ends r
  Ensures-Ends (holds h) = tt
  Ensures-Ends (rejected n) = n

  pub Ensures-bind {ℓ' κ'} :
      {B : Type ℓ'} {Q : B → Type κ'} {r : Result A} {f : A → Result B}
      → Ensures P r
      → ((a : A) → P a → Ensures Q (f a))
      → Ensures Q (r >>= f)
  Ensures-bind (holds {a} h) k = k a h
  Ensures-bind (rejected n) k = rejected n
