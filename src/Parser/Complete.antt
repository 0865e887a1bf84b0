-- ===== src/Parser/Complete.antt =====
-- The reader accepts every balanced sequence of tokens, and returns the tree that it spells.
use parena.Prelude.{
  ℕ, zero, suc, ◌+◌, ◌*◌, ◌≤◌, ◌≡◌, ◌≢◌, refl, ap, ◌∙◌, sym, true, false, List, [], ◌∷◌, ◌++◌,
  arith, ◌==◌, length, length-append, append_assoc,
}
use mathlib.Core.Path.{subst}
use parena.Ast.{NodeType, Node, Nodes, node, nil, node_new_atom, node_new_compound}
use parena.Lexer.Cursor.{TokenType, Token, eof}
use parena.Parser.State.{Parser, Result, ok, advance, token_code}
use parena.Parser.Forms.{
  is_close, parse_atom, parse_compound, parse_switch, parse_form, parse_children, parse_forms,
}
use parena.Parser.Grammar.{
  IsAtom, symbol_atom, keyword_atom, string_atom, number_atom, colon_atom, at_atom, IsPair, parens,
  brackets, braces, Spells, SpellsAll, leaf, compound, empty, also, Reads, here, next,
}

-- What is read in two parts.
pub Reads-split :
    {p r : Parser} (ts us : List Token)
    → Reads p (ts ++ us) r
    → (q : Parser) × Reads p ts q × Reads q us r
Reads-split {p} [] us h = (p, here, h)
Reads-split (t ∷ ts) us (next e a h) = let (q, h1, h2) = Reads-split ts us h in (q, next e a h1, h2)

-- The first token of a form opens it.
abbrev Opens : List Token → Type 0
Opens [] = ⊥
Opens (t ∷ ts) = (is_close t.type ≡ false) × (t.type ≢ eof)

atom_opens : {t : TokenType} {k : NodeType} → IsAtom t k → (is_close t ≡ false) × (t ≢ eof)
atom_opens symbol_atom = (refl, λ q. cc)
atom_opens _ = (refl, λ q. cc)

pair_opens : {t c : TokenType} {k : NodeType} → IsPair t c k → (is_close t ≡ false) × (t ≢ eof)
pair_opens parens = (refl, λ q. cc)
pair_opens _ = (refl, λ q. cc)

Spells-Opens : {n : Node} {ts : List Token} → Spells n ts → Opens ts
Spells-Opens (leaf a) = atom_opens a
Spells-Opens (compound close pair s) = pair_opens pair

module _ (c : NodeType → TokenType → Result (Node × Parser)) where
  atom_switch :
      {t : TokenType} {k : NodeType} (p : Parser) → IsAtom t k → parse_switch c p t ≡ parse_atom k p
  atom_switch p symbol_atom = refl
  atom_switch p keyword_atom = refl
  atom_switch p string_atom = refl
  atom_switch p number_atom = refl
  atom_switch p colon_atom = refl
  atom_switch p at_atom = refl

  pair_switch :
      {t close : TokenType} {k : NodeType} (p : Parser)
      → IsPair t close k
      → parse_switch c p t ≡ c k close
  pair_switch p parens = refl
  pair_switch p brackets = refl
  pair_switch p braces = refl

  leaf_switch :
      (p : Parser) {q : Parser} {t : Token} {k : NodeType}
      → p.cur ≡ t
      → IsAtom t.type k
      → advance p ≡ ok q
      → parse_switch c p p.cur.type ≡ ok (node k t.line t.text nil, q)
  unfolding node_new_atom
  leaf_switch p e a h = ap (λ (u : Token). parse_switch c p u.type) e ∙ atom_switch p a ∙ rw (h, e)

compound_switch :
    (f : ℕ) (p : Parser) {q r : Parser} {t : Token} {close : TokenType} {k : NodeType} {ns : Nodes}
    → p.cur ≡ t
    → IsPair t.type close k
    → advance p ≡ ok q
    → parse_children f close p.cur.line q ≡ ok (ns, r)
    → parse_switch (parse_compound (parse_children f) p) p p.cur.type ≡ ok (node k t.line [] ns, r)
unfolding node_new_compound
compound_switch f p e pair a h =
    ap (λ (u : Token). parse_switch (parse_compound (parse_children f) p) p u.type) e
    ∙ pair_switch (parse_compound (parse_children f) p) p pair
    ∙ rw (a, h, e)

token_code_refl : (t : TokenType) → (token_code t == token_code t) ≡ true
token_code_refl t = ground arith

same_code : {t u : Token} → t ≡ u → (token_code t.type == token_code u.type) ≡ true
same_code {u} e = rw e (token_code_refl u.type)

-- A token that opens a form passes the loop's three tests.
opens_ne_close :
    (t close : TokenType)
    → is_close t ≡ false
    → is_close close ≡ true
    → (token_code t == token_code close) ≡ false
opens_ne_close t close a b = ground arith

opens_ne_eof : (t : TokenType) → t ≢ eof → (token_code t == token_code eof) ≡ false
opens_ne_eof t h = ground arith

pair_closes : {t close : TokenType} {k : NodeType} → IsPair t close k → is_close close ≡ true
pair_closes parens = refl
pair_closes brackets = refl
pair_closes braces = refl

length-append_tokens : (a b : List Token) → length (a ++ b) ≡ length a + length b
length-append_tokens = length-append

Opens-length : {n : Node} {ts : List Token} → Spells n ts → 1 ≤ length ts
Opens-length (leaf a) = omega arith
Opens-length (compound close pair s) = omega arith

-- The current token of a parser that reads a form opens it.
Reads-Opens :
    {p q : Parser} (ts us : List Token)
    → Opens ts
    → Reads p (ts ++ us) q
    → (is_close p.cur.type ≡ false) × (p.cur.type ≢ eof)
Reads-Opens [] us o r = absurd o
Reads-Opens (t ∷ ts) us o (next e a r) =
    subst (λ (u : Token). (is_close u.type ≡ false) × (u.type ≢ eof)) (sym e) o

mutual
  unfolding parse_form

  parse_form-Spells :
      {n : Node} {ts : List Token}
      → Spells n ts
      → (f : ℕ) (p q : Parser) → 2 * length ts ≤ f
      → Reads p ts q
      → parse_form f p ≡ ok (n, q)
  parse_form-Spells (leaf a) zero p q h r = absurd (omega arith)
  parse_form-Spells (leaf a) (suc f) p q h (next e b here) =
      leaf_switch (parse_compound (parse_children f) p) p e a b
  parse_form-Spells (compound close pair s) zero p q h r = absurd (omega arith)
  parse_form-Spells (compound close {ts} pair s) (suc f) p q h (next e b r) =
      compound_switch f p e pair b (
        parse_children-SpellsAll s f _ q close p.cur.line (pair_closes pair)
          (omega (arith, length-append_tokens ts (close ∷ []))) r)

  parse_children-SpellsAll :
      {ns : Nodes} {ts : List Token}
      → SpellsAll ns ts
      → (f : ℕ) (p q : Parser) (close : Token) (opened : ℕ) → is_close close.type ≡ true
      → 2 * length ts + 1 ≤ f
      → Reads p (ts ++ (close ∷ [])) q
      → parse_children f close.type opened p ≡ ok (ns, q)
  parse_children-SpellsAll empty zero p q close opened c h r = absurd (omega arith)
  parse_children-SpellsAll empty (suc f) p q close opened c h (next e a here) = rw (same_code e, a)
  parse_children-SpellsAll (also s v) zero p q close opened c h r = absurd (omega arith)
  parse_children-SpellsAll (also {ts} {us} s v) (suc f) p q close opened c h r =
      let (m, r1, r2) = Reads-split ts (us ++ (close ∷ [])) (rw append_assoc at r) in
      let (n1, n2) = Reads-Opens ts (us ++ (close ∷ [])) (Spells-Opens s) (rw append_assoc at r) in
      rw (
        opens_ne_close p.cur.type close.type n1 c,
        opens_ne_eof p.cur.type n2,
        n1,
        parse_form-Spells s f p m (omega (arith, length-append_tokens ts us)) r1,
        parse_children-SpellsAll v f m q close opened c
            (omega (arith, length-append_tokens ts us, Opens-length s)) r2,
      )

is_eof : {t : TokenType} → t ≡ eof → (token_code t == token_code eof) ≡ true
is_eof e = rw e

pub parse_forms-SpellsAll :
    {ns : Nodes} {ts : List Token}
    → SpellsAll ns ts
    → (f : ℕ) (p q : Parser) → 2 * length ts + 1 ≤ f
    → Reads p ts q
    → q.cur.type ≡ eof
    → parse_forms f p ≡ ok ns
unfolding parse_forms
parse_forms-SpellsAll empty zero p q h r e = absurd (omega arith)
parse_forms-SpellsAll empty (suc f) p q h here e = rw (is_eof e)
parse_forms-SpellsAll (also s v) zero p q h r e = absurd (omega arith)
parse_forms-SpellsAll (also {ts} {us} s v) (suc f) p q h r e =
    let (m, r1, r2) = Reads-split ts us r in
    let (n1, n2) = Reads-Opens ts us (Spells-Opens s) r in
    rw (
      opens_ne_eof p.cur.type n2,
      n1,
      parse_form-Spells s f p m (omega (arith, length-append_tokens ts us)) r1,
      parse_forms-SpellsAll v f m q (omega (arith, length-append_tokens ts us, Opens-length s)) r2
          e,
    )
