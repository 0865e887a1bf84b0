-- ===== src/Parser/Forms.antt =====
-- src/parser.c: `parse_form`, `parse_compound` and `parse_program`. A call of `parse_form` and a
-- round of a loop cost a unit of fuel.
use parena.Prelude.{ℕ, zero, suc, ◌+◌, ◌*◌, Bool, true, false, ◌==◌, if◌then◌else◌, Bytes, length}
use parena.Ast.{NodeType, Node, Nodes, nil, cons, list, vec, map, node_new_atom, node_new_compound}
use parena.Lexer.Cursor.{
  TokenType, lparen, rparen, lbracket, rbracket, lbrace, rbrace, colon, at, symbol, keyword, string,
  number, eof, lexer_init,
}
use parena.Lexer.Next.{lexer_next}
use parena.Parser.State.{
  Parser, unterminated_form, mismatched_bracket, unexpected_close, unexpected_end, out_of_fuel,
  Result, ok, err, ◌>>=◌, set_token, advance, token_code,
}

abbrev pub is_close : TokenType → Bool
is_close rparen = true
is_close rbracket = true
is_close rbrace = true
is_close _ = false

-- node_new_atom at the current token, then `advance`.
abbrev pub parse_atom : NodeType → Parser → Result (Node × Parser)
parse_atom t p = do q ← advance p; ok (node_new_atom t p.cur.text p.cur.line, q)

-- `parse_compound` at the opening bracket; `loop` is its loop.
abbrev pub parse_compound :
    (TokenType → ℕ → Parser → Result (Nodes × Parser))
    → Parser
    → NodeType
    → TokenType
    → Result (Node × Parser)
parse_compound loop p t close = do
  q ← advance p
  r ← loop close p.cur.line q
  ok (node_new_compound t p.cur.line r.0, r.1)

-- The switch of `parse_form`; `compound` is its call of `parse_compound`.
abbrev pub parse_switch :
    (NodeType → TokenType → Result (Node × Parser)) → Parser → TokenType → Result (Node × Parser)
parse_switch compound p lparen = compound list rparen
parse_switch compound p lbracket = compound vec rbracket
parse_switch compound p lbrace = compound map rbrace
parse_switch compound p symbol = parse_atom NodeType.symbol p
parse_switch compound p keyword = parse_atom NodeType.keyword p
parse_switch compound p string = parse_atom NodeType.string p
parse_switch compound p number = parse_atom NodeType.number p
parse_switch compound p colon = parse_atom NodeType.colon p
parse_switch compound p at = parse_atom NodeType.at p
parse_switch compound p rparen = err (unexpected_close rparen p.cur.line)
parse_switch compound p rbracket = err (unexpected_close rbracket p.cur.line)
parse_switch compound p rbrace = err (unexpected_close rbrace p.cur.line)
parse_switch compound p eof = err (unexpected_end p.cur.line)

-- The loop returns the children that are still to be pushed, in order.
unfoldable mutual
  pub parse_form : ℕ → Parser → Result (Node × Parser)
  parse_form zero p = err out_of_fuel
  parse_form (suc f) p = parse_switch (parse_compound (parse_children f) p) p p.cur.type

  -- The loop of `parse_compound`, for the bracket opened on line `opened`.
  pub parse_children : ℕ → TokenType → ℕ → Parser → Result (Nodes × Parser)
  parse_children zero close opened p = err out_of_fuel
  parse_children (suc f) close opened p =
      let more : Result (Nodes × Parser) = do
        r ← parse_form f p
        s ← parse_children f close opened r.1
        ok (cons r.0 s.0, s.1)
      in if token_code p.cur.type == token_code close
        then (do q ← advance p; ok (nil, q))
        else if token_code p.cur.type == token_code eof
        then err (unterminated_form close opened)
        else if is_close p.cur.type
        then err (mismatched_bracket close p.cur.type p.cur.line)
        else more

-- The loop of `parse_program`.
unfoldable pub parse_forms : ℕ → Parser → Result Nodes
parse_forms zero p = err out_of_fuel
parse_forms (suc f) p =
    let more : Result Nodes = do r ← parse_form f p; s ← parse_forms f r.1; ok (cons r.0 s)
    in if token_code p.cur.type == token_code eof
      then ok nil
      else if is_close p.cur.type
      then err (unexpected_close p.cur.type p.cur.line)
      else more

-- Fuel that is enough for a source of this many bytes.
abbrev pub enough_fuel : Bytes → ℕ
enough_fuel src = 2 * length src + 4

unfoldable pub parse_program : Bytes → Result Node
parse_program src = do
  p ← set_token (lexer_next (lexer_init src))
  forms ← parse_forms (enough_fuel src) p
  ok (node_new_compound list 1 forms)
