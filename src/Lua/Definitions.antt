-- ===== src/Lua/Definitions.antt =====
-- src/emit_lua.c: the definitions that `emit_lua_defn` takes, told apart by their shape alone.
use parena.Prelude.{ℕ, [], ◌≡◌, ◌↔◌, true, Bytes, codes, Bool-cases, inl, inr}
use parena.Ast.{Node, Nodes, node, nil, cons, list, vec, map, symbol, colon, has_type, children_of}
use parena.Emit.Out.{and_text, args_text, Emits, AllEmit}
use parena.Emit.Shapes.{wrapped_iff, both_iff, args_text_iff}
use parena.Emit.Forms.{is_symbol}
use parena.Emit.Source.{HasSource, find_source_iff}
use parena.Lua.Names.{lua_ident}
use parena.Lua.Text.{target_odd, target_missing, target_shape}
use parena.Lua.Expr.{emit_lua_expr}
use parena.Lua.Accepts.{IsLua}
use parena.Lua.Decides.{emit_lua_expr-IsLua_iff}
use parena.Lua.Module.{
  find_target_lua_src, function_text, emit_target_lua_defn, param_text, param_texts, body_text,
  emit_lua_defn,
}

-- Parameters `(name : Type)`, of any type.
pub data AreParams : Nodes → Type 0 where
  no_param : AreParams nil
  and_param :
      (l : ℕ) (s : Bytes) (m : ℕ) (name : Bytes) (c : Nodes) (ml : ℕ) (ms : Bytes) (mc : Nodes)
      (tl : ℕ) (ts : Bytes) (tc : Nodes) {ns : Nodes}
      → AreParams ns
      → AreParams (
          cons
            (node list l s (
              cons
                (node symbol m name c)
                (cons (node colon ml ms mc) (cons (node symbol tl ts tc) nil))))
            ns)

-- A colon, a type and one expression of the subset, or two nodes, `#target` and a map with a source.
pub data IsBody : Nodes → Type 0 where
  an_expression :
      {c t body : Node}
      → has_type c colon ≡ true
      → IsLua body
      → IsBody (cons c (cons t (cons body nil)))
  a_source :
      {c t mark pairs : Node}
      → is_symbol mark (codes "#target") ≡ true
      → has_type pairs map ≡ true
      → HasSource (codes ":lua") (codes "inline-lua") (children_of pairs)
      → IsBody (cons c (cons t (cons mark (cons pairs nil))))

pub data IsDefn : Nodes → Type 0 where
  a_defn :
      (d : Node) (l : ℕ) (name : Bytes) (c : Nodes) (vl : ℕ) (vs : Bytes) {params rest : Nodes}
      → AreParams params
      → IsBody rest
      → IsDefn (cons d (cons (node symbol l name c) (cons (node vec vl vs params) rest)))

Emits-AreParams : (ns : Nodes) → AllEmit (param_texts ns) → AreParams ns
unfolding param_text
Emits-AreParams nil k = no_param
Emits-AreParams
      (cons
        (node list l s (
          cons
            (node symbol m name c)
            (cons (node colon ml ms mc) (cons (node symbol tl ts tc) nil))))
        ns)
      k =
    and_param l s m name c ml ms mc tl ts tc (Emits-AreParams ns k.1)
Emits-AreParams (cons n ns) k = absurd k.0

AreParams-Emits : {ns : Nodes} → AreParams ns → AllEmit (param_texts ns)
unfolding param_text
AreParams-Emits no_param = tt
AreParams-Emits (and_param l s m name c ml ms mc tl ts tc h) = (tt, AreParams-Emits h)

source_iff :
    (pairs : Nodes) (name params : Bytes)
    → Emits (emit_target_lua_defn pairs name params)
      ↔ HasSource (codes ":lua") (codes "inline-lua") pairs
unfolding find_target_lua_src
source_iff pairs name params =
    let found =
      find_source_iff target_odd target_missing target_shape (codes ":lua") (codes "inline-lua")
        pairs in
    let whole = wrapped_iff (find_target_lua_src pairs) (function_text [] name params) in
    (λ k. found.0 (whole.0 k), λ h. whole.1 (found.1 h))

Emits-IsBody :
    (name params : Bytes) (rest : Nodes) → Emits (body_text name params rest) → IsBody rest
unfolding body_text
Emits-IsBody name params (cons c (cons t (cons body nil))) k =
    elim (Bool-cases (has_type c colon)) [
      | inl h ↦ an_expression h (
          (emit_lua_expr-IsLua_iff body).0 (
            (wrapped_iff (emit_lua_expr body) (function_text (codes "return ") name params)).0
              (rw h at k)))
      | inr h ↦ absurd (rw h at k)
    ]
Emits-IsBody name params (cons c (cons t (cons mark (cons pairs nil)))) k =
    elim (Bool-cases (is_symbol mark (codes "#target"))) [
      | inl h ↦ elim (Bool-cases (has_type pairs map)) [
        | inl m ↦ a_source h m ((source_iff (children_of pairs) name params).0 (rw (h, m) at k))
        | inr m ↦ absurd (rw (h, m) at k)
      ]
      | inr h ↦ absurd (rw h at k)
    ]
Emits-IsBody name params rest k = absurd k

IsBody-Emits :
    (name params : Bytes) {rest : Nodes} → IsBody rest → Emits (body_text name params rest)
unfolding body_text
IsBody-Emits name params (an_expression {c} {t} {body} h e) = rw h (
    (wrapped_iff (emit_lua_expr body) (function_text (codes "return ") name params)).1
      ((emit_lua_expr-IsLua_iff body).1 e))
IsBody-Emits name params (a_source {c} {t} {mark} {pairs} h m f) =
    rw (h, m) ((source_iff (children_of pairs) name params).1 f)

parts_iff :
    (params : Nodes) (name : Bytes) (rest : Nodes)
    → Emits (and_text (args_text (param_texts params)) (λ ps. body_text (lua_ident name) ps rest))
      ↔ (AreParams params × IsBody rest)
parts_iff params name rest =
    let all = args_text_iff (param_texts params) in
    both_iff (args_text (param_texts params)) (λ ps. body_text (lua_ident name) ps rest)
      (λ k. Emits-AreParams params (all.0 k), λ h. all.1 (AreParams-Emits h))
      (λ ps. (Emits-IsBody (lua_ident name) ps rest, λ h. IsBody-Emits (lua_ident name) ps h))

emit_lua_defn-IsDefn : (cs : Nodes) → Emits (emit_lua_defn cs) → IsDefn cs
unfolding emit_lua_defn
emit_lua_defn-IsDefn (cons d (cons (node symbol l name c) (cons (node vec vl vs params) rest))) k =
    let (ps, b) = (parts_iff params name rest).0 k in a_defn d l name c vl vs ps b
emit_lua_defn-IsDefn cs k = absurd k

IsDefn-emit_lua_defn : {cs : Nodes} → IsDefn cs → Emits (emit_lua_defn cs)
unfolding emit_lua_defn
IsDefn-emit_lua_defn (a_defn d l name c vl vs {params} {rest} ps b) =
    (parts_iff params name rest).1 (ps, b)

pub emit_lua_defn_iff : (cs : Nodes) → Emits (emit_lua_defn cs) ↔ IsDefn cs
emit_lua_defn_iff cs = (emit_lua_defn-IsDefn cs, λ h. IsDefn-emit_lua_defn h)
