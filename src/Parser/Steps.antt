-- ===== src/Parser/Steps.antt =====
-- One step of the reader: it takes a token that is no end-of-file, and spells a leaf or calls for a
-- compound.
use parena.Prelude.{
  ℕ, ◌+◌, ◌≤◌, ◌<◌, ◌≡◌, ◌≢◌, refl, sym, none, some, Option, List, [], ◌∷◌, ◌++◌, arith, length,
  inl, inr, ◌⊎◌,
}
use mathlib.Core.Path.{subst}
use parena.Ast.{NodeType, Node, Nodes, list, vec, map, node_new_atom}
use parena.Lexer.Cursor.{
  unterminated_string, invalid_unicode_escape, invalid_byte_escape, unexpected_character, TokenType,
  Token, Lexer, LexError, lparen, rparen, lbracket, rbracket, lbrace, rbrace, colon, at, symbol,
  keyword, string, number, eof,
}
use parena.Lexer.Next.{lexer_next}
use parena.Lexer.Position.{Passes-length}
use parena.Lexer.Progress.{lexer_next-IsStep}
use parena.Parser.State.{lex_error, Parser, Result, ok, check_error, set_token, advance}
use parena.Parser.Forms.{parse_atom, parse_switch}
use parena.Parser.Grammar.{
  IsAtom, symbol_atom, keyword_atom, string_atom, number_atom, colon_atom, at_atom, IsPair, parens,
  brackets, braces, Spells, SpellsAll, leaf, Reads, here, next,
}
use parena.Lexer.Escapes.{IsStringError}
use parena.Parser.Ensures.{InFuel, Ensures, holds, rejected, Ensures-bind}

abbrev pub live : TokenType → ℕ
live eof = 0
live _ = 1

-- The bytes that are left, and the current token.
abbrev pub remaining : Parser → ℕ
remaining p = length p.lx.rest + live p.cur.type

pub live_token : (t : TokenType) → (t ≢ eof) ⊎ (t ≡ eof)
live_token eof = inr refl
live_token lparen = inl (λ q. cc)
live_token _ = inl (λ q. cc)

live_pos : (t : TokenType) → t ≢ eof → live t ≡ 1
live_pos eof h = absurd (h refl)
live_pos lparen h = refl
live_pos _ h = refl

pub live-le : (t : TokenType) → live t ≤ 1
live-le eof = omega arith
live-le lparen = omega arith
live-le _ = omega arith

-- The next token, if it is no error, leaves less to read.
pub set_token-remaining :
    (lx : Lexer)
    → remaining (record { lx = (lexer_next lx).lexer; cur = (lexer_next lx).token })
      ≤ length lx.rest
set_token-remaining lx =
    let s = lexer_next-IsStep lx in
    elim (live_token (lexer_next lx).token.type) [
      | inl t ↦ omega (arith, s.shorter t, live-le (lexer_next lx).token.type)
      | inr e ↦ rw e (omega (arith, Passes-length s.passes))
    ]

string_error-InFuel : (e : LexError) (line : ℕ) → IsStringError (some e) → InFuel (lex_error e line)
string_error-InFuel LexError.out_of_fuel line h = h
string_error-InFuel (unterminated_string n) line h = tt
string_error-InFuel invalid_unicode_escape line h = tt
string_error-InFuel invalid_byte_escape line h = tt
string_error-InFuel (unexpected_character n m) line h = tt

pub check_error-Ensures :
    (P : Parser → Type 0) (o : Option LexError) (q : Parser) (r : Result Parser)
    → IsStringError o
    → r ≡ check_error o q
    → P q
    → Ensures (λ q'. (r ≡ ok q') × P q') r
check_error-Ensures P none q r k e h =
    subst (λ x. Ensures (λ q'. (x ≡ ok q') × P q') x) (sym e) (holds (refl, h))
check_error-Ensures P (some x) q r k e h =
    subst (λ y. Ensures (λ q'. (y ≡ ok q') × P q') y) (sym e)
      (rejected (string_error-InFuel x q.cur.line k))

pub advance-Ensures :
    (p : Parser)
    → p.cur.type ≢ eof
    → Ensures (λ q. (advance p ≡ ok q) × (remaining q < remaining p)) (advance p)
unfolding advance
advance-Ensures p t =
    check_error-Ensures (λ q. remaining q < remaining p) (lexer_next p.lx).error _
      (set_token (lexer_next p.lx)) (lexer_next-IsStep p.lx).in_class refl
      (omega (arith, set_token-remaining p.lx, live_pos p.cur.type t))

-- What a successful read of `a` establishes: the tokens passed over spell it, and less is left.
pub record ReadsAs {ℓ} {A : Type ℓ} (S : A → List Token → Type 0) (p : Parser) (r : A × Parser)
    : Type ℓ where
  pub tokens : List Token
  pub reads : Reads p tokens r.1
  pub spells : S r.0 tokens
  pub less : remaining r.1 < remaining p

-- The children of a form, with the bracket that closes it.
pub record Closes (close : TokenType) (ns : Nodes) (ts : List Token) : Type 0 where
  pub inner : List Token
  pub last : Token
  pub closes : last.type ≡ close
  pub spelled : SpellsAll ns inner
  pub splits : ts ≡ inner ++ (last ∷ [])

parse_atom-Ensures :
    (p : Parser) (k : NodeType)
    → IsAtom p.cur.type k
    → p.cur.type ≢ eof
    → Ensures (ReadsAs Spells p) (parse_atom k p)
unfolding node_new_atom
parse_atom-Ensures p k a t = Ensures-bind (advance-Ensures p t) λ q h.
    holds (record { tokens = p.cur ∷ []; reads = next refl h.0 here; spells = leaf a; less = h.1 })

-- The call of `parse_compound` that the switch makes.
abbrev pub CompoundEnsures : (NodeType → TokenType → Result (Node × Parser)) → Parser → Type 0
CompoundEnsures c p =
    (k : NodeType) (close : TokenType)
    → IsPair p.cur.type close k
    → p.cur.type ≢ eof
    → Ensures (ReadsAs Spells p) (c k close)

pub parse_switch-Ensures :
    (c : NodeType → TokenType → Result (Node × Parser)) (p : Parser) (t : TokenType)
    → p.cur.type ≡ t
    → CompoundEnsures c p
    → Ensures (ReadsAs Spells p) (parse_switch c p t)
parse_switch-Ensures c p lparen e h = h list rparen (rw e parens) (λ q. cc)
parse_switch-Ensures c p lbracket e h = h vec rbracket (rw e brackets) (λ q. cc)
parse_switch-Ensures c p lbrace e h = h map rbrace (rw e braces) (λ q. cc)
parse_switch-Ensures c p symbol e h = parse_atom-Ensures p _ (rw e symbol_atom) (λ q. cc)
parse_switch-Ensures c p keyword e h = parse_atom-Ensures p _ (rw e keyword_atom) (λ q. cc)
parse_switch-Ensures c p string e h = parse_atom-Ensures p _ (rw e string_atom) (λ q. cc)
parse_switch-Ensures c p number e h = parse_atom-Ensures p _ (rw e number_atom) (λ q. cc)
parse_switch-Ensures c p colon e h = parse_atom-Ensures p _ (rw e colon_atom) (λ q. cc)
parse_switch-Ensures c p at e h = parse_atom-Ensures p _ (rw e at_atom) (λ q. cc)
parse_switch-Ensures c p _ e h = rejected tt
