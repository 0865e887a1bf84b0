-- ===== src/Java/Decides.antt =====
-- src/emit_java.c: `emit_java_expr` emits exactly the expressions of the subset.
use parena.Prelude.{
  Bool, ℕ, ◌≡◌, ◌↔◌, refl, true, List, [], ◌∷◌, ◌++◌, Option, none, some, ◌==◌, Bytes, codes,
  strcmp_eq, length, arith, Bool-cases, inl, inr,
}
use parena.Ast.{Node, Nodes, node, nil, cons, list, symbol, number, count}
use parena.Emit.Out.{emitted, failed, Emits, AllEmit}
use parena.Emit.Shapes.{joined_iff, wrapped_iff, call_text_iff}
use parena.Lua.Names.{camel_case}
use parena.Java.Text.{JavaOut, find_binop, find_math_prim, if_text, not_text, binop_text}
use parena.Java.Expr.{named_text, operator_text, form_text, emit_java_expr, emit_java_all}
use parena.Java.Accepts.{
  takes, takes_named, takes_other, IsJava, a_number, a_symbol, a_form, AllJava, no_more, one_more,
}

abbrev Fits : JavaOut → Bool → List JavaOut → Type 0
Fits o fits outs = Emits o ↔ ((fits ≡ true) × AllEmit outs)

if_text_iff : (outs : List JavaOut) → Fits (if_text outs) (length outs == 3) outs
unfolding if_text
if_text_iff [] = (λ h. absurd h, λ h. absurd (ground arith))
if_text_iff (a ∷ []) = (λ h. absurd h, λ h. absurd (ground arith))
if_text_iff (a ∷ b ∷ []) = (λ h. absurd h, λ h. absurd (ground arith))
if_text_iff (emitted x ∷ emitted y ∷ emitted z ∷ []) = (λ h. (refl, (tt, (tt, (tt, tt)))), λ h. tt)
if_text_iff (failed e ∷ b ∷ c ∷ []) = (λ h. absurd h, λ h. h.1.0)
if_text_iff (emitted x ∷ failed e ∷ c ∷ []) = (λ h. absurd h, λ h. h.1.1.0)
if_text_iff (emitted x ∷ emitted y ∷ failed e ∷ []) = (λ h. absurd h, λ h. h.1.1.1.0)
if_text_iff (a ∷ b ∷ c ∷ d ∷ outs) = (λ h. absurd h, λ h. absurd (ground arith))

not_text_iff : (outs : List JavaOut) → Fits (not_text outs) (length outs == 1) outs
unfolding not_text
not_text_iff [] = (λ h. absurd h, λ h. absurd (ground arith))
not_text_iff (o ∷ []) =
    let w = wrapped_iff o (λ x. codes "(!(" ++ (x ++ codes "))")) in
    (λ h. (refl, (w.0 h, tt)), λ h. w.1 h.1.0)
not_text_iff (a ∷ b ∷ outs) = (λ h. absurd h, λ h. absurd (ground arith))

binop_text_iff :
    (op : Bytes) (outs : List JavaOut) → Fits (binop_text op outs) (length outs == 2) outs
unfolding binop_text
binop_text_iff op [] = (λ h. absurd h, λ h. absurd (ground arith))
binop_text_iff op (a ∷ []) = (λ h. absurd h, λ h. absurd (ground arith))
binop_text_iff op (o ∷ p ∷ []) =
    let w =
      joined_iff o p
        (λ x y. codes "(" ++ (x ++ (codes " " ++ (op ++ (codes " " ++ (y ++ codes ")")))))) in
    (λ h. let (a, b) = w.0 h in (refl, (a, (b, tt))), λ h. w.1 (h.1.0, h.1.1.0))
binop_text_iff op (a ∷ b ∷ c ∷ outs) = (λ h. absurd h, λ h. absurd (ground arith))

named_text_iff :
    (h : Bytes) (outs : List JavaOut) (o : Option (Bytes × ℕ))
    → Fits (named_text h outs o) (takes_named (length outs) o) outs
named_text_iff h outs none =
    let r = call_text_iff (camel_case h) outs in (λ k. (refl, r.0 k), λ k. r.1 k.1)
named_text_iff h outs (some (fn, n)) = elim (Bool-cases (length outs == n)) [
  | inl e ↦ let r = call_text_iff fn outs in rw e (λ k. (refl, r.0 k), λ k. r.1 k.1)
  | inr e ↦ rw e (λ k. absurd k, λ k. absurd (ground arith))
]

operator_text_iff :
    (h : Bytes) (outs : List JavaOut) (o : Option Bytes)
    → Fits (operator_text h outs o) (takes_other h (length outs) o) outs
operator_text_iff h outs none = named_text_iff h outs (find_math_prim h)
operator_text_iff h outs (some op) = binop_text_iff op outs

form_text_iff :
    (h : Bytes) (outs : List JavaOut) → Fits (form_text h outs) (takes h (length outs)) outs
unfolding form_text
form_text_iff h outs = elim (Bool-cases (strcmp_eq h (codes "if"))) [
  | inl i ↦ rw i (if_text_iff outs)
  | inr i ↦ elim (Bool-cases (strcmp_eq h (codes "not"))) [
    | inl n ↦ rw (i, n) (not_text_iff outs)
    | inr n ↦ rw (i, n) (operator_text_iff h outs (find_binop h))
  ]
]

length-emit_java_all : (ns : Nodes) → length (emit_java_all ns) ≡ count ns
unfolding emit_java_expr
length-emit_java_all nil = refl
length-emit_java_all (cons n ns) = omega (arith, length-emit_java_all ns)

mutual
  unfolding emit_java_expr

  Emits-IsJava : (n : Node) → Emits (emit_java_expr n) → IsJava n
  Emits-IsJava (node number l s cs) k = a_number l s cs
  Emits-IsJava (node symbol l s cs) k = a_symbol l s cs
  Emits-IsJava (node list l s (cons (node symbol m h c) args)) k =
      let (t, a) = (form_text_iff h (emit_java_all args)).0 k in
      a_form l s m h c args (rw (length-emit_java_all args) at t) (Emits-AllJava args a)
  Emits-IsJava n k = absurd k

  Emits-AllJava : (ns : Nodes) → AllEmit (emit_java_all ns) → AllJava ns
  Emits-AllJava nil k = no_more
  Emits-AllJava (cons n ns) k = one_more (Emits-IsJava n k.0) (Emits-AllJava ns k.1)

mutual
  unfolding emit_java_expr

  IsJava-Emits : {n : Node} → IsJava n → Emits (emit_java_expr n)
  IsJava-Emits (a_number l s cs) = tt
  IsJava-Emits (a_symbol l s cs) = tt
  IsJava-Emits (a_form l s m h c args t a) =
      (form_text_iff h (emit_java_all args)).1 (rw (length-emit_java_all args) t, AllJava-Emits a)

  AllJava-Emits : {ns : Nodes} → AllJava ns → AllEmit (emit_java_all ns)
  AllJava-Emits no_more = tt
  AllJava-Emits (one_more h hs) = (IsJava-Emits h, AllJava-Emits hs)

pub emit_java_expr_iff : (n : Node) → Emits (emit_java_expr n) ↔ IsJava n
emit_java_expr_iff n = (Emits-IsJava n, λ h. IsJava-Emits h)
