-- ===== src/Emit/Shapes.antt =====
-- src/emit_lua.c, src/emit_java.c: a text made of others comes out exactly if those do.
use parena.Prelude.{◌≡◌, ◌⊎◌, inl, inr, ◌↔◌, List, [], ◌∷◌, ◌++◌, Bytes, codes}
use parena.Emit.Out.{Out, emitted, failed, and_text, args_text, call_text, Emits, AllEmit}

module _ {E : Type 0} where
  pub wrapped_iff :
      (o : Out E) (f : Bytes → Bytes) → Emits (and_text o (λ x. emitted (f x))) ↔ Emits o
  wrapped_iff (emitted t) f = (λ k. tt, λ k. tt)
  wrapped_iff (failed e) f = (λ k. k, λ k. k)

  pub both_iff :
      (o : Out E) (f : Bytes → Out E) {A B : Type 0}
      → Emits o ↔ A
      → ((x : Bytes) → Emits (f x) ↔ B)
      → Emits (and_text o f) ↔ (A × B)
  both_iff (emitted x) f a b = (λ k. (a.0 tt, (b x).0 k), λ h. (b x).1 h.1)
  both_iff (failed e) f a b = (λ k. absurd k, λ h. a.1 h.0)

  pub wrapped-failed_iff :
      (o : Out E) (f : Bytes → Bytes) (e : E)
      → (and_text o (λ x. emitted (f x)) ≡ failed e) ↔ (o ≡ failed e)
  wrapped-failed_iff (emitted t) f e = (λ k. cc, λ k. cc)
  wrapped-failed_iff (failed d) f e = (λ k. k, λ k. k)

  pub joined_iff :
      (o p : Out E) (f : Bytes → Bytes → Bytes)
      → Emits (and_text o (λ x. and_text p (λ y. emitted (f x y)))) ↔ (Emits o × Emits p)
  joined_iff (emitted t) p f = let r = wrapped_iff p (f t) in (λ k. (tt, r.0 k), λ k. r.1 k.1)
  joined_iff (failed e) p f = (λ k. absurd k, λ k. k.0)

  pub failed_iff :
      (o p : Out E) (f : Bytes → Bytes → Bytes) (e : E)
      → (and_text o (λ x. and_text p (λ y. emitted (f x y))) ≡ failed e)
        ↔ ((o ≡ failed e) ⊎ (Emits o × (p ≡ failed e)))
  failed_iff (failed d) p f e = (λ k. inl k, λ k. elim k [ inl h ↦ h | inr h ↦ absurd h.0 ])
  failed_iff (emitted t) (emitted r) f e = (λ k. cc, λ k. elim k [ inl h ↦ cc | inr h ↦ cc ])
  failed_iff (emitted t) (failed d) f e =
      (λ k. inr (tt, k), λ k. elim k [ inl h ↦ cc | inr h ↦ h.1 ])

  pub args_text_iff : (outs : List (Out E)) → Emits (args_text outs) ↔ AllEmit outs
  unfolding args_text
  args_text_iff [] = (λ k. tt, λ k. tt)
  args_text_iff (o ∷ []) = (λ k. (k, tt), λ k. k.0)
  args_text_iff (o ∷ p ∷ outs) =
      let more = args_text_iff (p ∷ outs) in
      let r = joined_iff o (args_text (p ∷ outs)) (λ x y. x ++ (codes ", " ++ y)) in
      (λ k. let (a, b) = r.0 k in (a, more.0 b), λ k. r.1 (k.0, more.1 k.1))

  pub call_text_iff : (fn : Bytes) (outs : List (Out E)) → Emits (call_text fn outs) ↔ AllEmit outs
  call_text_iff fn outs =
      let r = args_text_iff outs in
      let w = wrapped_iff (args_text outs) (λ t. fn ++ (codes "(" ++ (t ++ codes ")"))) in
      (λ k. r.0 (w.0 k), λ k. w.1 (r.1 k))
