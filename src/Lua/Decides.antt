-- ===== src/Lua/Decides.antt =====
-- src/emit_lua.c: `emit_lua_expr` emits exactly the expressions of the subset.
use parena.Prelude.{
  ℕ, ◌%◌, ◌≡◌, ◌↔◌, refl, true, false, not, ◌||◌, List, ◌==◌, Bytes, codes, strcmp_eq, length,
  arith, Bool-cases, inl, inr, ◌⊎◌,
}
use parena.Ast.{
  Node, Nodes, node, nil, cons, list, vec, symbol, number, string, has_type, count, text_of,
}
use parena.Emit.Out.{emitted, failed, Emits, AllEmit}
use parena.Lua.Text.{LuaOut, binding_text, has_name, statement_forms}
use parena.Lua.Names.{find_binop}
use parena.Lua.Expr.{form_text, emit_lua_expr, emit_lua_all, emit_lua_let, emit_lua_bindings}
use parena.Lua.Accepts.{
  takes, IsLua, a_number, a_string, a_symbol, a_let, a_form, AllLua, no_more, one_more, AreBindings,
  no_pair, half, pair,
}
use parena.Lua.Shapes.{if_text_iff, not_text_iff, operator_text_iff, let_text_iff}

-- What a form with a head needs to come out: as a `let`, or by its count and its parts.
abbrev Needs : Bytes → List LuaOut → LuaOut → Type 0
Needs h outs as_let =
    ((strcmp_eq h (codes "if") ≡ false)
      × ((strcmp_eq h (codes "not") ≡ false) × ((strcmp_eq h (codes "let") ≡ true) × Emits as_let)))
    ⊎ (((strcmp_eq h (codes "if") || (strcmp_eq h (codes "not") || not (strcmp_eq h (codes "let"))))
          ≡ true)
        × ((takes h (length outs) ≡ true) × AllEmit outs))

form-Needs :
    (h : Bytes) (outs : List LuaOut) (as_let : LuaOut)
    → Emits (form_text h outs as_let)
    → Needs h outs as_let
unfolding form_text
form-Needs h outs as_let k = elim (Bool-cases (strcmp_eq h (codes "if"))) [
  | inl i ↦ inr (rw i refl, rw i ((if_text_iff outs).0 (rw i at k)))
  | inr i ↦ elim (Bool-cases (strcmp_eq h (codes "not"))) [
    | inl n ↦ inr (rw (i, n) refl, rw (i, n) ((not_text_iff outs).0 (rw (i, n) at k)))
    | inr n ↦ elim (Bool-cases (strcmp_eq h (codes "let"))) [
      | inl l ↦ inl (i, (n, (l, rw (i, n, l) at k)))
      | inr l ↦ elim (Bool-cases (has_name statement_forms h)) [
        | inl s ↦ absurd (rw (i, n, l, s) at k)
        | inr s ↦ inr (
          rw (i, n, l) refl,
          rw (i, n, s) ((operator_text_iff h outs (find_binop h)).0 (rw (i, n, l, s) at k)),
        )
      ]
    ]
  ]
]

Needs-form :
    (h : Bytes) (outs : List LuaOut) (as_let : LuaOut)
    → Needs h outs as_let
    → Emits (form_text h outs as_let)
unfolding form_text
Needs-form h outs as_let (inl (i, (n, (l, e)))) = rw (i, n, l) e
Needs-form h outs as_let (inr (g, (t, a))) = elim (Bool-cases (strcmp_eq h (codes "if"))) [
  | inl i ↦ rw i ((if_text_iff outs).1 (rw i at t, a))
  | inr i ↦ elim (Bool-cases (strcmp_eq h (codes "not"))) [
    | inl n ↦ rw (i, n) ((not_text_iff outs).1 (rw (i, n) at t, a))
    | inr n ↦ elim (Bool-cases (strcmp_eq h (codes "let"))) [
      | inl l ↦ absurd (false-true (rw (i, n, l) at g))
      | inr l ↦ elim (Bool-cases (has_name statement_forms h)) [
        | inl s ↦ absurd (false-true (rw (i, n, s) at t))
        | inr s ↦
            rw (i, n, l, s) ((operator_text_iff h outs (find_binop h)).1 (rw (i, n, s) at t, a))
      ]
    ]
  ]
]
  where
    false-true : false ≡ true → ⊥
    false-true e = ground arith

length-emit_lua_all : (ns : Nodes) → length (emit_lua_all ns) ≡ count ns
unfolding emit_lua_expr
length-emit_lua_all nil = refl
length-emit_lua_all (cons n ns) = omega (arith, length-emit_lua_all ns)

binding-Emits :
    (name : Bytes) (value rest : LuaOut)
    → Emits (binding_text name value rest) ↔ (Emits value × Emits rest)
binding-Emits name (emitted v) (emitted r) = (λ k. (tt, tt), λ k. tt)
binding-Emits name (emitted v) (failed e) = (λ k. absurd k, λ k. k.1)
binding-Emits name (failed e) r = (λ k. absurd k, λ k. k.0)

mutual
  unfolding emit_lua_expr

  Emits-IsLua : (n : Node) → Emits (emit_lua_expr n) → IsLua n
  Emits-IsLua (node number l s cs) k = a_number l s cs
  Emits-IsLua (node string l s cs) k = a_string l s cs
  Emits-IsLua (node symbol l s cs) k = a_symbol l s cs
  Emits-IsLua (node list l s (cons (node symbol m h c) args)) k =
      elim (form-Needs h (emit_lua_all args) (emit_lua_let args) k) [
        | inl (i, (n, (e, q))) ↦ Emits-let l s m h c args e i n q
        | inr (g, (t, a)) ↦
            a_form l s m h c args (rw (length-emit_lua_all args) at t) g (Emits-AllLua args a)
      ]
  Emits-IsLua n k = absurd k

  Emits-AllLua : (ns : Nodes) → AllEmit (emit_lua_all ns) → AllLua ns
  Emits-AllLua nil k = no_more
  Emits-AllLua (cons n ns) k = one_more (Emits-IsLua n k.0) (Emits-AllLua ns k.1)

  Emits-let :
      (l : ℕ) (s : Bytes) (m : ℕ) (h : Bytes) (c args : Nodes)
      → strcmp_eq h (codes "let") ≡ true
      → strcmp_eq h (codes "if") ≡ false
      → strcmp_eq h (codes "not") ≡ false
      → Emits (emit_lua_let args)
      → IsLua (node list l s (cons (node symbol m h c) args))
  Emits-let l s m h c (cons (node vec vl vs bs) (cons body nil)) e i n q =
      elim (Bool-cases (count bs % 2 == 0)) [
        | inl p ↦
            let parts = (let_text_iff (emit_lua_bindings bs) (emit_lua_expr body)).0 (rw p at q) in
            a_let l s m h c vl vs bs body e i n p (Emits-AreBindings bs parts.0)
              (Emits-IsLua body parts.1)
        | inr p ↦ absurd (rw p at q)
      ]
  Emits-let l s m h c args e i n q = absurd q

  Emits-AreBindings : (bs : Nodes) → Emits (emit_lua_bindings bs) → AreBindings bs
  Emits-AreBindings nil k = no_pair
  Emits-AreBindings (cons n nil) k = half n
  Emits-AreBindings (cons n (cons e rest)) k = elim (Bool-cases (has_type n symbol)) [
    | inl p ↦
        let parts =
          (binding-Emits (text_of n) (emit_lua_expr e) (emit_lua_bindings rest)).0 (rw p at k) in
        pair p (Emits-IsLua e parts.0) (Emits-AreBindings rest parts.1)
    | inr p ↦ absurd (rw p at k)
  ]

mutual
  unfolding emit_lua_expr

  IsLua-Emits : {n : Node} → IsLua n → Emits (emit_lua_expr n)
  IsLua-Emits (a_number l s cs) = tt
  IsLua-Emits (a_string l s cs) = tt
  IsLua-Emits (a_symbol l s cs) = tt
  IsLua-Emits (a_let l s m h c vl vs bs body e i n p bindings result) =
      let args = cons (node vec vl vs bs) (cons body nil) in
      let q : Emits (emit_lua_let args) = rw p (
        (let_text_iff (emit_lua_bindings bs) (emit_lua_expr body)).1
          (AreBindings-Emits bindings, IsLua-Emits result)) in
      Needs-form h (emit_lua_all args) (emit_lua_let args) (inl (i, (n, (e, q))))
  IsLua-Emits (a_form l s m h c args t g a) =
      Needs-form h (emit_lua_all args) (emit_lua_let args)
        (inr (g, (rw (length-emit_lua_all args) t, AllLua-Emits a)))

  AllLua-Emits : {ns : Nodes} → AllLua ns → AllEmit (emit_lua_all ns)
  AllLua-Emits no_more = tt
  AllLua-Emits (one_more h hs) = (IsLua-Emits h, AllLua-Emits hs)

  AreBindings-Emits : {bs : Nodes} → AreBindings bs → Emits (emit_lua_bindings bs)
  AreBindings-Emits no_pair = tt
  AreBindings-Emits (half n) = tt
  AreBindings-Emits (pair {n} {e} {rest} p v r) = rw p (
      (binding-Emits (text_of n) (emit_lua_expr e) (emit_lua_bindings rest)).1
        (IsLua-Emits v, AreBindings-Emits r))

-- The emitter gives a text for an expression exactly if it is a number, a string, a symbol, a `let`
-- of pairs with symbols for names, or a form, no statement, whose head takes so many arguments, and
-- all its parts are such expressions; otherwise it gives an error.
pub emit_lua_expr-IsLua_iff : (n : Node) → Emits (emit_lua_expr n) ↔ IsLua n
emit_lua_expr-IsLua_iff n = (Emits-IsLua n, λ h. IsLua-Emits h)
