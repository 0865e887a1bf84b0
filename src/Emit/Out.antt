-- ===== src/Emit/Out.antt =====
-- src/emit_lua.c, src/emit_java.c: a text, or NULL with an error in `*out_error`. The first error ends
-- the work.
use parena.Prelude.{List, [], ◌∷◌, ◌++◌, Bytes, codes}

pub data Out (E : Type 0) : Type 0 where
  emitted : Bytes → Out E
  failed : E → Out E

module _ {E : Type 0} where
  abbrev pub and_text : Out E → (Bytes → Out E) → Out E
  and_text (emitted t) f = f t
  and_text (failed e) f = failed e

  -- The arguments of a call, with commas between them.
  unfoldable pub args_text : List (Out E) → Out E
  args_text [] = emitted []
  args_text (o ∷ []) = o
  args_text (o ∷ p ∷ outs) =
      and_text o (λ x. and_text (args_text (p ∷ outs)) (λ r. emitted (x ++ (codes ", " ++ r))))

  abbrev pub call_text : Bytes → List (Out E) → Out E
  call_text fn outs =
      and_text (args_text outs) (λ r. emitted (fn ++ (codes "(" ++ (r ++ codes ")"))))

  abbrev pub Emits : Out E → Type 0
  Emits (emitted t) = Unit
  Emits (failed e) = ⊥

  abbrev pub AllEmit : List (Out E) → Type 0
  AllEmit [] = Unit
  AllEmit (o ∷ outs) = Emits o × AllEmit outs
