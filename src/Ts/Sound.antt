-- ===== src/Ts/Sound.antt =====
-- src/emit_ts.c: `emit_ts_expr` gives a text with a type exactly for the expressions of that type.
use parena.Prelude.{
  some-inj, none-some, ℕ, ◌≡◌, ◌↔◌, inl, inr, refl, sym, ◌∙◌, true, false, List, ◌∷◌, Option, none,
  some, Bytes, Bool-cases, Option-cases,
}
use parena.Ast.{Node, Nodes, node, nil, cons, list, symbol, number, string, has_type, text_of}
use parena.Lua.Names.{find_entry}
use parena.Ts.Context.{TsTypeCtx, lookup_fn_ret_type, lookup_param_type}
use parena.Ts.Text.{constant_table, constant_or_declared}
use parena.Ts.Js.{any, callback_text}
use parena.Ts.Expr.{is_stmt_head, emit_ts_expr, emit_ts_all}
use parena.Ts.Types.{
  form_type, is_callback, HasType, a_number, a_string, a_constant, a_variable, a_callback, a_form,
  HaveTypes, no_more, one_more, type_of,
}
use parena.Ts.Shapes.{types_of, from_types, with_first}
use parena.Ts.Bridge.{arg_types}
use parena.Ts.Typing.{type_of-form_text}

-- What a head gives for types that are there.
from_types-some :
    (r : Option (List Bytes)) (f : List Bytes → Option Bytes) {t : Bytes}
    → from_types r f ≡ some t
    → (ts : List Bytes) × ((r ≡ some ts) × (f ts ≡ some t))
from_types-some none f e = absurd (none-some e)
from_types-some (some ts) f e = (ts, (refl, e))

with_first-some :
    (o : Option Bytes) (r : Option (List Bytes)) {ts : List Bytes}
    → with_first o r ≡ some ts
    → (t : Bytes) × ((us : List Bytes) × ((o ≡ some t) × ((r ≡ some us) × (t ∷ us ≡ ts))))
with_first-some none r e = absurd (none-some e)
with_first-some (some t) none e = absurd (none-some e)
with_first-some (some t) (some us) e = (t, (us, (refl, (refl, some-inj e))))

module _ (ctx : TsTypeCtx) where
  symbol-HasType :
      (l : ℕ) (s : Bytes) (cs : Nodes) {t : Bytes}
      → type_of (constant_or_declared s (lookup_param_type ctx s) (find_entry constant_table s))
        ≡ some t
      → HasType ctx (node symbol l s cs) t
  symbol-HasType l s cs {t} e = elim (Option-cases (find_entry constant_table s)) [
    | inr ((x, u), c) ↦ rw (sym (some-inj (rw c at e))) (a_constant l s cs c)
    | inl c ↦ elim (Option-cases (lookup_param_type ctx s)) [
      | inr (u, v) ↦ rw (sym (some-inj (rw (c, v) at e))) (a_variable l s cs c v)
      | inl v ↦ absurd (none-some (rw (c, v) at e))
    ]
  ]

  callback-HasType :
      (l : ℕ) (s : Bytes) (m : ℕ) (h : Bytes) (c args : Nodes) {t : Bytes}
      → is_stmt_head h ≡ false
      → is_callback h ≡ true
      → type_of (callback_text ctx args) ≡ some t
      → HasType ctx (node list l s (cons (node symbol m h c) args)) t
  unfolding callback_text
  callback-HasType l s m h c nil p q e = absurd (none-some e)
  callback-HasType l s m h c (cons k nil) p q e = elim (Bool-cases (has_type k symbol)) [
    | inr y ↦ absurd (none-some (rw y at e))
    | inl y ↦ elim (Option-cases (lookup_fn_ret_type ctx (text_of k))) [
      | inl f ↦ absurd (none-some (rw (y, f) at e))
      | inr (u, f) ↦ rw (sym (some-inj (rw (y, f) at e))) (a_callback l s m h c k p q y f)
    ]
  ]
  callback-HasType l s m h c (cons k (cons n ns)) p q e = absurd (none-some e)

  mutual
    unfolding emit_ts_expr

    typed-HasType : (n : Node) {t : Bytes} → type_of (emit_ts_expr ctx n) ≡ some t → HasType ctx n t
    typed-HasType (node number l s cs) e = rw (sym (some-inj e)) (a_number l s cs)
    typed-HasType (node string l s cs) e = rw (sym (some-inj e)) (a_string l s cs)
    typed-HasType (node symbol l s cs) e = symbol-HasType l s cs e
    typed-HasType (node list l s (cons (node symbol m h c) args)) e =
        let r = sym (type_of-form_text ctx h args) ∙ e in
        elim (Bool-cases (is_stmt_head h)) [
          | inl p ↦ absurd (none-some (rw p at r))
          | inr p ↦ elim (Bool-cases (is_callback h)) [
            | inl q ↦ callback-HasType l s m h c args p q (rw (p, q) at r)
            | inr q ↦
                let (ts, (all, one)) =
                  from_types-some (arg_types ctx args) (λ ts. form_type ctx h args ts)
                    (rw (p, q) at r) in
                a_form l s m h c args p q (all-HaveTypes args all) one
          ]
        ]
    typed-HasType n e = absurd (none-some e)

    all-HaveTypes :
        (ns : Nodes) {ts : List Bytes}
        → types_of (emit_ts_all ctx ns) ≡ some ts
        → HaveTypes ctx ns ts
    all-HaveTypes nil e = rw (sym (some-inj e)) no_more
    all-HaveTypes (cons n ns) e =
        let (t, (us, (one, (more, same)))) =
          with_first-some (type_of (emit_ts_expr ctx n)) (types_of (emit_ts_all ctx ns)) e in
        rw (sym same) (one_more (typed-HasType n one) (all-HaveTypes ns more))

  known :
      (k : Node) {t : Bytes}
      → has_type k symbol ≡ true
      → lookup_fn_ret_type ctx (text_of k) ≡ some t
      → type_of (callback_text ctx (cons k nil)) ≡ some any
  unfolding callback_text
  known k y f = rw (y, f) refl

  mutual
    unfolding emit_ts_expr

    HasType-typed : {n : Node} {t : Bytes} → HasType ctx n t → type_of (emit_ts_expr ctx n) ≡ some t
    HasType-typed (a_number l s cs) = refl
    HasType-typed (a_string l s cs) = refl
    HasType-typed (a_constant l s cs c) = rw c refl
    HasType-typed (a_variable l s cs c v) = rw (c, v) refl
    HasType-typed (a_callback l s m h c k p q y f) =
        type_of-form_text ctx h (cons k nil) ∙ rw (p, q) (known k y f)
    HasType-typed (a_form l s m h c args p q all one) =
        type_of-form_text ctx h args ∙ rw (p, q, HaveTypes-typed all) one

    HaveTypes-typed :
        {ns : Nodes} {ts : List Bytes}
        → HaveTypes ctx ns ts
        → types_of (emit_ts_all ctx ns) ≡ some ts
    HaveTypes-typed no_more = refl
    HaveTypes-typed (one_more h hs) = rw (HasType-typed h, HaveTypes-typed hs) refl

-- An expression comes out as TypeScript with a type exactly if the rules give it that type: numbers,
-- strings, constants and declared names have one, so has a callback that names a function of the file,
-- and a form that is no statement if its arguments have types and its head gives one for them. An
-- expression with no type ends with an error.
pub emit_ts_expr-HasType_iff :
    (ctx : TsTypeCtx) (n : Node) (t : Bytes)
    → (type_of (emit_ts_expr ctx n) ≡ some t) ↔ HasType ctx n t
emit_ts_expr-HasType_iff ctx n t = (λ e. typed-HasType ctx n e, λ h. HasType-typed ctx h)
