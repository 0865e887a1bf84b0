-- ===== src/Parser/Grammar.antt =====
-- The language of balanced S-expressions, as a relation between trees and token sequences, and the
-- token sequences that a parser's state has in front of it.
use parena.Prelude.{◌≡◌, List, [], ◌∷◌, ◌++◌}
use parena.Ast.{NodeType, Node, Nodes, node, nil, cons, list, vec, map}
use parena.Lexer.Cursor.{
  TokenType, Token, lparen, rparen, lbracket, rbracket, lbrace, rbrace, colon, at, symbol, keyword,
  string, number,
}
use parena.Parser.State.{Parser, ok, advance}

-- The tokens that stand for one leaf.
pub data IsAtom : TokenType → NodeType → Type 0 where
  symbol_atom : IsAtom symbol NodeType.symbol
  keyword_atom : IsAtom keyword NodeType.keyword
  string_atom : IsAtom string NodeType.string
  number_atom : IsAtom number NodeType.number
  colon_atom : IsAtom colon NodeType.colon
  at_atom : IsAtom at NodeType.at

-- The three pairs of brackets.
pub data IsPair : TokenType → TokenType → NodeType → Type 0 where
  parens : IsPair lparen rparen list
  brackets : IsPair lbracket rbracket vec
  braces : IsPair lbrace rbrace map

mutual
  pub data Spells : Node → List Token → Type 0 where
    leaf : {t : Token} {k : NodeType} → IsAtom t.type k → Spells (node k t.line t.text nil) (t ∷ [])
    compound :
        {open' : Token} (close : Token) {k : NodeType} {ns : Nodes} {ts : List Token}
        → IsPair open'.type close.type k
        → SpellsAll ns ts
        → Spells (node k open'.line [] ns) (open' ∷ (ts ++ (close ∷ [])))

  pub data SpellsAll : Nodes → List Token → Type 0 where
    empty : SpellsAll nil []
    also :
        {n : Node} {ns : Nodes} {ts us : List Token}
        → Spells n ts
        → SpellsAll ns us
        → SpellsAll (cons n ns) (ts ++ us)

-- `Reads p ts q`: from `p` the tokenizer gives the tokens `ts`, and leaves the parser at `q`.
pub data Reads : Parser → List Token → Parser → Type 0 where
  here : {p : Parser} → Reads p [] p
  next :
      {p q r : Parser} {t : Token} {ts : List Token}
      → p.cur ≡ t
      → advance p ≡ ok q
      → Reads q ts r
      → Reads p (t ∷ ts) r

pub Reads-append :
    {p q r : Parser} {ts us : List Token} → Reads p ts q → Reads q us r → Reads p (ts ++ us) r
Reads-append here s = s
Reads-append (next e a r) s = next e a (Reads-append r s)
