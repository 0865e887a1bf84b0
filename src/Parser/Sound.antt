-- ===== src/Parser/Sound.antt =====
-- What the reader accepts is a balanced S-expression, and its fuel is enough for every source.
use parena.Prelude.{
  ℕ, zero, suc, ◌+◌, ◌*◌, ◌≤◌, ◌<◌, ◌≡◌, ◌≢◌, refl, ◌∙◌, Bool, sym, true, false, List, [], ◌∷◌,
  ◌++◌, arith, ◌==◌, if◌then◌else◌, Bytes, length, if_cases, append_assoc,
}
use mathlib.Core.Path.{subst}
use parena.Ast.{NodeType, Node, Nodes, node, nil, cons, list, node_new_compound, children_of}
use parena.Lexer.Cursor.{TokenType, Token, eof, lexer_init}
use parena.Lexer.Next.{lexer_next}
use parena.Lexer.Progress.{lexer_next-IsStep}
use parena.Parser.State.{Parser, Result, ok, set_token, advance, token_code}
use parena.Parser.Forms.{
  is_close, parse_form, parse_children, parse_forms, enough_fuel, parse_program,
}
use parena.Parser.Grammar.{
  IsPair, parens, brackets, braces, Spells, SpellsAll, compound, empty, also, Reads, here, next,
  Reads-append,
}
use parena.Parser.Ensures.{Ensures, holds, rejected, Ensures-ok, Ends, Ensures-Ends, Ensures-bind}
use parena.Parser.Steps.{
  remaining, set_token-remaining, check_error-Ensures, advance-Ensures, ReadsAs, Closes,
  parse_switch-Ensures,
}

pub token_code_lem : (t u : TokenType) → (token_code t == token_code u) ≡ true → t ≡ u
token_code_lem t u h = ground arith

if_Ensures :
    {A : Type 0} (P : A → Type 0) (b : Bool) {x y : Result A}
    → (b ≡ true → Ensures P x)
    → (b ≡ false → Ensures P y)
    → Ensures P (if b then x else y)
if_Ensures P b = if_cases (Ensures P) b

not_end : (t : TokenType) → (token_code t == token_code eof) ≡ false → t ≢ eof
not_end t h e = ground arith

compound_ReadsAs :
    {p q : Parser} {r : Nodes × Parser} {k : NodeType} {close : TokenType}
    → IsPair p.cur.type close k
    → advance p ≡ ok q
    → remaining q < remaining p
    → ReadsAs (Closes close) q r
    → ReadsAs Spells p (node_new_compound k p.cur.line r.0, r.1)
unfolding node_new_compound
compound_ReadsAs {p} {r} {k} pair a l s =
    let c = s.spells in
    record {
      tokens = p.cur ∷ s.tokens;
      reads = next refl a s.reads;
      spells =
          subst (λ ts. Spells (node k p.cur.line [] r.0) (p.cur ∷ ts)) (sym c.splits)
            (compound c.last (subst (λ t. IsPair p.cur.type t k) (sym c.closes) pair) c.spelled);
      less = omega (arith, s.less);
    }

closed_ReadsAs :
    {p q : Parser} {close : TokenType}
    → p.cur.type ≡ close
    → advance p ≡ ok q
    → remaining q < remaining p
    → ReadsAs (Closes close) p (nil, q)
closed_ReadsAs {p} e a l = record {
  tokens = p.cur ∷ [];
  reads = next refl a here;
  spells = record { inner = []; last = p.cur; closes = e; spelled = empty; splits = refl };
  less = l;
}

more_ReadsAs :
    {p : Parser} {close : TokenType} {r : Node × Parser} {u : Nodes × Parser}
    → ReadsAs Spells p r
    → ReadsAs (Closes close) r.1 u
    → ReadsAs (Closes close) p (cons r.0 u.0, u.1)
more_ReadsAs s v =
    let c = v.spells in
    record {
      tokens = s.tokens ++ v.tokens;
      reads = Reads-append s.reads v.reads;
      spells = record {
        inner = s.tokens ++ c.inner;
        last = c.last;
        closes = c.closes;
        spelled = also s.spells c.spelled;
        splits = rw (c.splits, append_assoc);
      };
      less = omega (arith, s.less, v.less);
    }

pair_close : {open' close : TokenType} {k : NodeType} → IsPair open' close k → close ≢ eof
pair_close parens = λ q. cc
pair_close brackets = λ q. cc
pair_close braces = λ q. cc

mutual
  unfolding parse_form

  parse_form-Ensures :
      (f : ℕ) (p : Parser) → 2 * remaining p < f → Ensures (ReadsAs Spells p) (parse_form f p)
  parse_form-Ensures zero p h = absurd (omega arith)
  parse_form-Ensures (suc f) p h = parse_switch-Ensures _ p p.cur.type refl λ k close pair t.
      Ensures-bind (advance-Ensures p t) λ q a.
        Ensures-bind
          (parse_children-Ensures f close p.cur.line q (pair_close pair) (omega (arith, a.1)))
          λ r s. holds (compound_ReadsAs pair a.0 a.1 s)

  parse_children-Ensures :
      (f : ℕ) (close : TokenType) (opened : ℕ) (p : Parser)
      → close ≢ eof
      → 2 * remaining p + 1 < f
      → Ensures (ReadsAs (Closes close) p) (parse_children f close opened p)
  parse_children-Ensures zero close opened p n h = absurd (omega arith)
  parse_children-Ensures (suc f) close opened p n h =
      if_Ensures _ (token_code p.cur.type == token_code close)
        (λ e.
          let same = token_code_lem p.cur.type close e in
          Ensures-bind (advance-Ensures p (λ q. n (sym same ∙ q)))
            λ q a. holds (closed_ReadsAs same a.0 a.1))
        λ _.
          if_Ensures _ (token_code p.cur.type == token_code eof) (λ _. rejected tt)
            λ _.
              if_Ensures _ (is_close p.cur.type) (λ _. rejected tt)
                λ _. Ensures-bind (parse_form-Ensures f p (omega arith)) λ r s.
                  Ensures-bind (parse_children-Ensures f close opened r.1 n (omega (arith, s.less)))
                    λ u v. holds (more_ReadsAs s v)

-- What a run of the top loop establishes: the tokens up to the end of the file spell the forms.
pub record ReadsAll (p : Parser) (ns : Nodes) : Type 0 where
  pub tokens : List Token
  pub last : Parser
  pub reads : Reads p tokens last
  pub spells : SpellsAll ns tokens
  pub ends : last.cur.type ≡ eof

parse_forms-Ensures :
    (f : ℕ) (p : Parser) → 2 * remaining p + 1 < f → Ensures (ReadsAll p) (parse_forms f p)
unfolding parse_forms
parse_forms-Ensures zero p h = absurd (omega arith)
parse_forms-Ensures (suc f) p h =
    if_Ensures _ (token_code p.cur.type == token_code eof)
      (λ e. holds (record {
        tokens = [];
        last = p;
        reads = here;
        spells = empty;
        ends = token_code_lem p.cur.type eof e;
      }))
      λ _.
        if_Ensures _ (is_close p.cur.type) (λ _. rejected tt)
          λ _. Ensures-bind (parse_form-Ensures f p (omega arith)) λ r s.
            Ensures-bind (parse_forms-Ensures f r.1 (omega (arith, s.less))) λ ns v. holds (record {
              tokens = s.tokens ++ v.tokens;
              last = v.last;
              reads = Reads-append s.reads v.reads;
              spells = also s.spells v.spells;
              ends = v.ends;
            })

-- The parser primed with the first token of a source.
pub record Parses (src : Bytes) (n : Node) : Type 0 where
  pub first : Parser
  pub primes : set_token (lexer_next (lexer_init src)) ≡ ok first
  pub forms : ReadsAll first (children_of n)
  pub is_list : n ≡ node list 1 [] (children_of n)

pub prime-Ensures :
    (src : Bytes)
    → Ensures
        (λ q. (set_token (lexer_next (lexer_init src)) ≡ ok q) × (remaining q ≤ length src))
        (set_token (lexer_next (lexer_init src)))
unfolding lexer_init
prime-Ensures src =
    check_error-Ensures (λ q. remaining q ≤ length src) (lexer_next (lexer_init src)).error _
      (set_token (lexer_next (lexer_init src))) (lexer_next-IsStep (lexer_init src)).in_class refl
      (set_token-remaining (lexer_init src))

pub parse_program-Ensures : (src : Bytes) → Ensures (Parses src) (parse_program src)
unfolding parse_program node_new_compound
parse_program-Ensures src = Ensures-bind (prime-Ensures src) λ p h.
    Ensures-bind (parse_forms-Ensures (enough_fuel src) p (omega (arith, h.1)))
      λ ns v. holds (record { first = p; primes = h.0; forms = v; is_list = refl })

-- A program that the reader accepts is balanced: the tokenizer's tokens, from the first to the end
-- of the file, spell the forms of the tree that it returns, which is a list on line 1.
pub parse_program-Parses : (src : Bytes) {n : Node} → parse_program src ≡ ok n → Parses src n
parse_program-Parses src e = Ensures-ok (parse_program-Ensures src) e

-- The reader ends on every source with a tree or with an error of the source: neither the fuel of the
-- parser's loops nor that of the tokenizer's loop over a string literal is ever used up.
pub parse_program_total : (src : Bytes) → Ends (parse_program src)
parse_program_total src = Ensures-Ends (parse_program-Ensures src)
