-- ===== src/Emit/Source.antt =====
-- src/emit_lua.c, src/emit_java.c: what a `#target` map needs for its source to be found.
use parena.Prelude.{
  c_str, Option-cases, ◌%◌, ◌≡◌, ◌↔◌, true, false, Option, none, some, ◌==◌, Bytes, arith,
  Bool-cases, inl, inr, if◌then◌else◌,
}
use parena.Ast.{Node, Nodes, count}
use parena.Emit.Out.{Out, emitted, failed, Emits}
use parena.Emit.Forms.{target_value, inline_source}

-- The map is made of pairs, and the first of them with the key has an inline string.
pub data HasSource (target inline : Bytes) (pairs : Nodes) : Type 0 where
  has_source :
      {v : Node} {src : Bytes}
      → (count pairs % 2 == 0) ≡ true
      → target_value target pairs ≡ some v
      → inline_source inline v ≡ some src
      → HasSource target inline pairs

module _ {E : Type 0} where
  abbrev pub from_inline : E → Option Bytes → Out E
  from_inline wrong_shape none = failed wrong_shape
  from_inline wrong_shape (some src) = emitted (c_str src)

  abbrev pub from_value : E → E → Bytes → Option Node → Out E
  from_value missing wrong_shape inline none = failed missing
  from_value missing wrong_shape inline (some v) = from_inline wrong_shape (inline_source inline v)

  -- The lookup of the source, from the target's keyword, its head and its errors.
  unfoldable pub find_source : E → E → E → Bytes → Bytes → Nodes → Out E
  find_source odd missing wrong_shape target inline pairs =
      if count pairs % 2 == 0
      then from_value missing wrong_shape inline (target_value target pairs)
      else failed odd

  pub find_source_iff :
      (odd missing wrong_shape : E) (target inline : Bytes) (pairs : Nodes)
      → Emits (find_source odd missing wrong_shape target inline pairs)
        ↔ HasSource target inline pairs
  unfolding find_source
  find_source_iff odd missing wrong_shape target inline pairs =
      elim (Bool-cases (count pairs % 2 == 0)) [
        | inl even ↦ (λ k. found even (rw even at k), λ h. rw even (back h))
        | inr odd_count ↦ (λ k. absurd (rw odd_count at k), λ h. absurd (never odd_count h))
      ]
    where
      found :
          (count pairs % 2 == 0) ≡ true
          → Emits (from_value missing wrong_shape inline (target_value target pairs))
          → HasSource target inline pairs
      found even k = elim (Option-cases (target_value target pairs)) [
        | inl v ↦ absurd (rw v at k)
        | inr (x, v) ↦ elim (Option-cases (inline_source inline x)) [
          | inl t ↦ absurd (rw (v, t) at k)
          | inr (src, t) ↦ has_source even v t
        ]
      ]

      back :
          HasSource target inline pairs
          → Emits (from_value missing wrong_shape inline (target_value target pairs))
      back (has_source even v s) = rw (v, s) tt

      never : (count pairs % 2 == 0) ≡ false → HasSource target inline pairs → ⊥
      never odd_count (has_source even v s) = ground arith
