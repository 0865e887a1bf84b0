-- ===== src/Java/Definitions.antt =====
-- src/emit_java.c: the definitions that `emit_java_defn` takes, told apart by their shape alone.
use parena.Prelude.{ℕ, ◌++◌, ◌≡◌, ◌↔◌, true, some, Bytes, codes, Bool-cases, Option-cases, inl, inr}
use parena.Ast.{Node, Nodes, node, nil, cons, list, vec, map, symbol, colon, has_type, children_of}
use parena.Emit.Out.{emitted, and_text, args_text, Emits, AllEmit}
use parena.Emit.Shapes.{wrapped_iff, both_iff, args_text_iff}
use parena.Emit.Forms.{is_symbol}
use parena.Emit.Source.{HasSource, find_source_iff}
use parena.Lua.Names.{camel_case, find_entry}
use parena.Java.Text.{type_table, resolve_java_type, target_odd, target_missing, target_shape}
use parena.Java.Expr.{emit_java_expr}
use parena.Java.Accepts.{IsJava}
use parena.Java.Decides.{emit_java_expr_iff}
use parena.Java.Module.{
  find_target_java_src, method_text, returned, inline_statement, emit_target_java_defn, param_text,
  param_texts, body_text, tail_text, emit_java_defn,
}

-- The name of one of the five types.
pub data IsType : Node → Type 0 where
  a_type :
      (l : ℕ) (s : Bytes) (c : Nodes) {t : Bytes}
      → find_entry type_table s ≡ some t
      → IsType (node symbol l s c)

-- Parameters `(name : Type)`.
pub data AreParams : Nodes → Type 0 where
  no_param : AreParams nil
  and_param :
      (l : ℕ) (s : Bytes) (m : ℕ) (name : Bytes) (c : Nodes) (ml : ℕ) (ms : Bytes) (mc : Nodes)
      (tl : ℕ) (ts : Bytes) (tc : Nodes) {ns : Nodes}
      → IsType (node symbol tl ts tc)
      → AreParams ns
      → AreParams (
          cons
            (node list l s (
              cons
                (node symbol m name c)
                (cons (node colon ml ms mc) (cons (node symbol tl ts tc) nil))))
            ns)

-- One expression of the subset, or `#target` and a map with a source.
pub data IsBody : Nodes → Type 0 where
  an_expression : {body : Node} → IsJava body → IsBody (cons body nil)
  a_source :
      {mark pairs : Node}
      → is_symbol mark (codes "#target") ≡ true
      → has_type pairs map ≡ true
      → HasSource (codes ":java") (codes "inline-java") (children_of pairs)
      → IsBody (cons mark (cons pairs nil))

pub data IsDefn : Nodes → Type 0 where
  a_defn :
      (d : Node) (l : ℕ) (name : Bytes) (c : Nodes) (vl : ℕ) (vs : Bytes) {params : Nodes}
      {mark t b : Node} {rest : Nodes}
      → AreParams params
      → has_type mark colon ≡ true
      → IsType t
      → IsBody (cons b rest)
      → IsDefn (
          cons d (
            cons
              (node symbol l name c)
              (cons (node vec vl vs params) (cons mark (cons t (cons b rest))))))

resolve-IsType : (n : Node) → Emits (resolve_java_type n) → IsType n
unfolding resolve_java_type
resolve-IsType (node symbol l s c) k = elim (Option-cases (find_entry type_table s)) [
  | inl e ↦ absurd (rw e at k)
  | inr (t, e) ↦ a_type l s c e
]
resolve-IsType n k = absurd k

IsType-resolve : {n : Node} → IsType n → Emits (resolve_java_type n)
unfolding resolve_java_type
IsType-resolve (a_type l s c e) = rw e tt

param-IsType_iff :
    (n : Node) (name : Bytes)
    → Emits (and_text (resolve_java_type n) (λ t. emitted (t ++ (codes " " ++ camel_case name))))
      ↔ IsType n
param-IsType_iff n name =
    let w = wrapped_iff (resolve_java_type n) (λ t. t ++ (codes " " ++ camel_case name)) in
    (λ k. resolve-IsType n (w.0 k), λ h. w.1 (IsType-resolve h))

Emits-AreParams : (ns : Nodes) → AllEmit (param_texts ns) → AreParams ns
unfolding param_text
Emits-AreParams nil k = no_param
Emits-AreParams
      (cons
        (node list l s (
          cons
            (node symbol m name c)
            (cons (node colon ml ms mc) (cons (node symbol tl ts tc) nil))))
        ns)
      k =
    and_param l s m name c ml ms mc tl ts tc ((param-IsType_iff (node symbol tl ts tc) name).0 k.0)
      (Emits-AreParams ns k.1)
Emits-AreParams (cons n ns) k = absurd k.0

AreParams-Emits : {ns : Nodes} → AreParams ns → AllEmit (param_texts ns)
unfolding param_text
AreParams-Emits no_param = tt
AreParams-Emits (and_param l s m name c ml ms mc tl ts tc t h) =
    ((param-IsType_iff (node symbol tl ts tc) name).1 t, AreParams-Emits h)

source_iff :
    (pairs : Nodes) (name params ret : Bytes)
    → Emits (emit_target_java_defn pairs name params ret)
      ↔ HasSource (codes ":java") (codes "inline-java") pairs
unfolding find_target_java_src
source_iff pairs name params ret =
    let found =
      find_source_iff target_odd target_missing target_shape (codes ":java") (codes "inline-java")
        pairs in
    let whole =
      wrapped_iff (find_target_java_src pairs)
        (λ src. method_text ret name params (inline_statement ret src)) in
    (λ k. found.0 (whole.0 k), λ h. whole.1 (found.1 h))

expression_iff :
    (body : Node) (name params ret : Bytes)
    → Emits
        (and_text (emit_java_expr body) (λ x. emitted (method_text ret name params (returned x))))
      ↔ IsJava body
expression_iff body name params ret =
    let e = emit_java_expr_iff body in
    let w = wrapped_iff (emit_java_expr body) (λ x. method_text ret name params (returned x)) in
    (λ k. e.0 (w.0 k), λ h. w.1 (e.1 h))

Emits-IsBody :
    (name params ret : Bytes) (rest : Nodes) → Emits (body_text name params ret rest) → IsBody rest
unfolding body_text
Emits-IsBody name params ret (cons body nil) k =
    an_expression ((expression_iff body name params ret).0 k)
Emits-IsBody name params ret (cons mark (cons pairs nil)) k =
    elim (Bool-cases (is_symbol mark (codes "#target"))) [
      | inl h ↦ elim (Bool-cases (has_type pairs map)) [
        | inl m ↦ a_source h m ((source_iff (children_of pairs) name params ret).0 (rw (h, m) at k))
        | inr m ↦ absurd (rw (h, m) at k)
      ]
      | inr h ↦ absurd (rw h at k)
    ]
Emits-IsBody name params ret rest k = absurd k

IsBody-Emits :
    (name params ret : Bytes) {rest : Nodes} → IsBody rest → Emits (body_text name params ret rest)
unfolding body_text
IsBody-Emits name params ret (an_expression {body} e) = (expression_iff body name params ret).1 e
IsBody-Emits name params ret (a_source {mark} {pairs} h m f) =
    rw (h, m) ((source_iff (children_of pairs) name params ret).1 f)

typed_iff :
    (name params : Bytes) (t : Node) (rest : Nodes)
    → Emits (and_text (resolve_java_type t) (λ ret. body_text name params ret rest))
      ↔ (IsType t × IsBody rest)
typed_iff name params t rest =
    both_iff (resolve_java_type t) (λ ret. body_text name params ret rest)
      (λ k. resolve-IsType t k, λ h. IsType-resolve h)
      (λ ret. (Emits-IsBody name params ret rest, λ h. IsBody-Emits name params ret h))

-- The definition's own parts, behind the name.
data IsTail : Nodes → Type 0 where
  a_tail :
      {mark t b : Node} {rest : Nodes}
      → has_type mark colon ≡ true
      → IsType t
      → IsBody (cons b rest)
      → IsTail (cons mark (cons t (cons b rest)))

Emits-IsTail :
    (name params : Bytes) (rest : Nodes) → Emits (tail_text name params rest) → IsTail rest
unfolding tail_text
Emits-IsTail name params (cons mark (cons t (cons b rest))) k =
    elim (Bool-cases (has_type mark colon)) [
      | inl h ↦ let (a, d) = (typed_iff name params t (cons b rest)).0 (rw h at k) in a_tail h a d
      | inr h ↦ absurd (rw h at k)
    ]
Emits-IsTail name params rest k = absurd k

IsTail-Emits :
    (name params : Bytes) {rest : Nodes} → IsTail rest → Emits (tail_text name params rest)
unfolding tail_text
IsTail-Emits name params (a_tail {mark} {t} {b} {rest} h a d) =
    rw h ((typed_iff name params t (cons b rest)).1 (a, d))

parts_iff :
    (params : Nodes) (name : Bytes) (rest : Nodes)
    → Emits (and_text (args_text (param_texts params)) (λ ps. tail_text (camel_case name) ps rest))
      ↔ (AreParams params × IsTail rest)
parts_iff params name rest =
    let all = args_text_iff (param_texts params) in
    both_iff (args_text (param_texts params)) (λ ps. tail_text (camel_case name) ps rest)
      (λ k. Emits-AreParams params (all.0 k), λ h. all.1 (AreParams-Emits h))
      (λ ps. (Emits-IsTail (camel_case name) ps rest, λ h. IsTail-Emits (camel_case name) ps h))

emit_java_defn-IsDefn : (cs : Nodes) → Emits (emit_java_defn cs) → IsDefn cs
unfolding emit_java_defn
emit_java_defn-IsDefn (cons d (cons (node symbol l name c) (cons (node vec vl vs params) rest))) k =
    let (ps, b) = (parts_iff params name rest).0 k in whole b ps
  where
    whole :
        {r : Nodes}
        → IsTail r
        → AreParams params
        → IsDefn (cons d (cons (node symbol l name c) (cons (node vec vl vs params) r)))
    whole (a_tail h a b) ps = a_defn d l name c vl vs ps h a b
emit_java_defn-IsDefn cs k = absurd k

IsDefn-emit_java_defn : {cs : Nodes} → IsDefn cs → Emits (emit_java_defn cs)
unfolding emit_java_defn
IsDefn-emit_java_defn (a_defn d l name c vl vs {params} {mark} {t} {b} {rest} ps h a body) =
    (parts_iff params name (cons mark (cons t (cons b rest)))).1 (ps, a_tail h a body)

pub emit_java_defn_iff : (cs : Nodes) → Emits (emit_java_defn cs) ↔ IsDefn cs
emit_java_defn_iff cs = (emit_java_defn-IsDefn cs, λ h. IsDefn-emit_java_defn h)
