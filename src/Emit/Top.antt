-- ===== src/Emit/Top.antt =====
-- src/emit_lua.c, src/emit_java.c: the loop of `emit_lua` and `emit_java` over the forms of a program,
-- from what they do with a definition.
use parena.Prelude.{
  arith, [], ◌⊎◌, ◌≡◌, ◌↔◌, true, false, ◌++◌, if◌then◌else◌, codes, Bool-cases, inl, inr,
}
use parena.Ast.{Node, Nodes, nil, cons, children_of}
use parena.Emit.Out.{Out, emitted, failed, and_text, Emits}
use parena.Emit.Shapes.{joined_iff, failed_iff}
use parena.Emit.Forms.{is_call_named, is_metadata}

module _ {E : Type 0} (emit_defn : Nodes → Out E) (unsupported : E) where
  abbrev pub form_text : Node → Out E
  form_text form =
      if is_metadata form
      then emitted []
      else if is_call_named form (codes "defn")
      then emit_defn (children_of form)
      else failed unsupported

  unfoldable pub emit_forms : Nodes → Out E
  emit_forms nil = emitted []
  emit_forms (cons form forms) =
      and_text (form_text form) (λ t. and_text (emit_forms forms) (λ r. emitted (t ++ r)))

-- A form that a target takes: one that means nothing to it, or a definition that it takes.
pub data IsForm (IsDefn : Nodes → Type 0) : Node → Type 0 where
  passed_over : {form : Node} → is_metadata form ≡ true → IsForm IsDefn form
  definition :
      {form : Node}
      → is_metadata form ≡ false
      → is_call_named form (codes "defn") ≡ true
      → IsDefn (children_of form)
      → IsForm IsDefn form

pub data AreForms (IsDefn : Nodes → Type 0) : Nodes → Type 0 where
  no_form : AreForms IsDefn nil
  and_form :
      {form : Node} {forms : Nodes}
      → IsForm IsDefn form
      → AreForms IsDefn forms
      → AreForms IsDefn (cons form forms)

-- The first form that is not taken, behind forms that are, has the error.
pub data IsRefused {E : Type 0} (form_text : Node → Out E) (IsDefn : Nodes → Type 0) (e : E)
    : Nodes → Type 0 where
  refused_here :
      {form : Node} {forms : Nodes}
      → form_text form ≡ failed e
      → IsRefused form_text IsDefn e (cons form forms)
  refused_later :
      {form : Node} {forms : Nodes}
      → IsForm IsDefn form
      → IsRefused form_text IsDefn e forms
      → IsRefused form_text IsDefn e (cons form forms)

module _ {E : Type 0} (emit_defn : Nodes → Out E) (unsupported : E) (IsDefn : Nodes → Type 0)
    (defn_iff : (cs : Nodes) → Emits (emit_defn cs) ↔ IsDefn cs) where
  pub form_text_iff :
      (form : Node) → Emits (form_text emit_defn unsupported form) ↔ IsForm IsDefn form
  form_text_iff form = elim (Bool-cases (is_metadata form)) [
    | inl m ↦ (λ k. passed_over m, λ k. rw m tt)
    | inr m ↦ elim (Bool-cases (is_call_named form (codes "defn"))) [
      | inl d ↦ (
        λ k. definition m d ((defn_iff (children_of form)).0 (rw (m, d) at k)),
        λ k. rw (m, d) ((defn_iff (children_of form)).1 (defined m k)),
      )
      | inr d ↦ (λ k. absurd (rw (m, d) at k), λ k. absurd (undefined m d k))
    ]
  ]
    where
      defined : {f : Node} → is_metadata f ≡ false → IsForm IsDefn f → IsDefn (children_of f)
      defined m (passed_over m') = absurd (ground arith)
      defined m (definition m' d h) = h

      undefined :
          {f : Node}
          → is_metadata f ≡ false
          → is_call_named f (codes "defn") ≡ false
          → IsForm IsDefn f
          → ⊥
      undefined m d (passed_over m') = ground arith
      undefined m d (definition m' d' h) = ground arith

  pub emit_forms_iff :
      (forms : Nodes) → Emits (emit_forms emit_defn unsupported forms) ↔ AreForms IsDefn forms
  unfolding emit_forms
  emit_forms_iff nil = (λ k. no_form, λ k. tt)
  emit_forms_iff (cons form forms) =
      let first = form_text_iff form in
      let more = emit_forms_iff forms in
      let both =
        joined_iff (form_text emit_defn unsupported form) (emit_forms emit_defn unsupported forms)
          (λ t r. t ++ r) in
      (
        λ k. let (a, b) = both.0 k in and_form (first.0 a) (more.0 b),
        λ k. both.1 (parts first more k),
      )
    where
      parts :
          {A B : Type 0} {f : Node} {fs : Nodes}
          → A ↔ IsForm IsDefn f
          → B ↔ AreForms IsDefn fs
          → AreForms IsDefn (cons f fs)
          → A × B
      parts first more (and_form h hs) = (first.1 h, more.1 hs)

  pub emit_forms-failed_iff :
      (e : E) (forms : Nodes)
      → (emit_forms emit_defn unsupported forms ≡ failed e)
        ↔ IsRefused (form_text emit_defn unsupported) IsDefn e forms
  unfolding emit_forms
  emit_forms-failed_iff e nil = (λ k. cc, λ k. elim k [ ])
  emit_forms-failed_iff e (cons form forms) =
      let first = form_text_iff form in
      let more = emit_forms-failed_iff e forms in
      let either =
        failed_iff (form_text emit_defn unsupported form) (emit_forms emit_defn unsupported forms)
          (λ t r. t ++ r) e in
      (
        λ k. elim (either.0 k) [
          | inl h ↦ refused_here h
          | inr h ↦ refused_later (first.0 h.0) (more.0 h.1)
        ],
        λ k. either.1 (parts first more k),
      )
    where
      parts :
          {f : Node} {fs : Nodes} {A B : Type 0}
          → A ↔ IsForm IsDefn f
          → B ↔ IsRefused (form_text emit_defn unsupported) IsDefn e fs
          → IsRefused (form_text emit_defn unsupported) IsDefn e (cons f fs)
          → (form_text emit_defn unsupported f ≡ failed e) ⊎ (A × B)
      parts first more (refused_here h) = inl h
      parts first more (refused_later h hs) = inr (first.1 h, more.1 hs)
