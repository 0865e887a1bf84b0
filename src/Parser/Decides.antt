-- ===== src/Parser/Decides.antt =====
-- `parse_program` decides the language of balanced programs: acceptance both ways.
use parena.Prelude.{◌≤◌, ◌≡◌, ◌≢◌, ◌↔◌, sym, ap, List, [], ◌∷◌, ◌++◌, arith, Bytes, length}
use mathlib.Core.Path.{subst}
use parena.Ast.{NodeType, Node, Nodes, node_new_compound}
use parena.Lexer.Cursor.{TokenType, Token, eof}
use parena.Parser.State.{Parser, ok}
use parena.Parser.Forms.{enough_fuel, parse_program}
use parena.Parser.Grammar.{
  IsAtom, symbol_atom, IsPair, parens, Spells, SpellsAll, leaf, compound, empty, also, Reads, here,
  next,
}
use parena.Parser.Ensures.{Ensures-ok}
use parena.Parser.Steps.{remaining, advance-Ensures}
use parena.Parser.Sound.{Parses, prime-Ensures, parse_program-Parses}
use parena.Parser.Complete.{parse_forms-SpellsAll}

-- No token of the sequence is an end of file.
abbrev Live : List Token → Type 0
Live [] = Unit
Live (t ∷ ts) = (t.type ≢ eof) × Live ts

Live-append : (ts us : List Token) → Live ts → Live us → Live (ts ++ us)
Live-append [] us a b = b
Live-append (t ∷ ts) us a b = (a.0, Live-append ts us a.1 b)

atom_live : {t : TokenType} {k : NodeType} → IsAtom t k → t ≢ eof
atom_live symbol_atom = λ q. cc
atom_live _ = λ q. cc

pair_live : {t c : TokenType} {k : NodeType} → IsPair t c k → (t ≢ eof) × (c ≢ eof)
pair_live parens = (λ q. cc, λ q. cc)
pair_live _ = (λ q. cc, λ q. cc)

mutual
  Spells-Live : {n : Node} {ts : List Token} → Spells n ts → Live ts
  Spells-Live (leaf a) = (atom_live a, tt)
  Spells-Live (compound close {ts} pair s) =
      ((pair_live pair).0, Live-append ts _ (SpellsAll-Live s) ((pair_live pair).1, tt))

  SpellsAll-Live : {ns : Nodes} {ts : List Token} → SpellsAll ns ts → Live ts
  SpellsAll-Live empty = tt
  SpellsAll-Live (also {ts} {us} s v) = Live-append ts us (Spells-Live s) (SpellsAll-Live v)

-- Each token read is paid for by the bytes that are left.
Reads-length : {p q : Parser} {ts : List Token} → Reads p ts q → Live ts → length ts ≤ remaining p
Reads-length here l = omega arith
Reads-length {p} (next e a r) l =
    let t = subst (λ (u : Token). u.type ≢ eof) (sym e) l.0 in
    let d = (Ensures-ok (advance-Ensures p t) a).1 in omega (arith, d, Reads-length r l.1)

-- The reader returns `n` for a source exactly when `n` is a list on line 1 whose forms the tokens
-- of the source, up to the end of the file, spell as balanced S-expressions.
pub parse_program-eq-ok_iff : (src : Bytes) (n : Node) → (parse_program src ≡ ok n) ↔ Parses src n
unfolding parse_program node_new_compound
parse_program-eq-ok_iff src n = (
  parse_program-Parses src,
  λ v.
      let f = v.forms in
      let small = (Ensures-ok (prime-Ensures src) v.primes).1 in
      let bound = Reads-length f.reads (SpellsAll-Live f.spells) in
      rw
        (
          v.primes,
          parse_forms-SpellsAll f.spells (enough_fuel src) v.first f.last
              (omega (arith, small, bound)) f.reads f.ends,
        )
        (ap ok (sym v.is_list)),
)
