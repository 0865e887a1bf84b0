-- ===== src/Ts/Shapes.antt =====
-- src/emit_ts.c: the type of a form's text, from those of its arguments' texts.
use parena.Prelude.{
  ℕ, suc, ◌≡◌, inl, inr, refl, sym, ap, ◌∙◌, Bool, true, false, List, [], ◌∷◌, ◌++◌, Option, none,
  some, arith, ◌==◌, if◌then◌else◌, Bytes, codes, length, Bool-cases,
}
use parena.Emit.Out.{Out, emitted, failed, and_text, args_text}
use parena.Ts.Names.{ResultKind}
use parena.Ts.Text.{
  TsError, TsOut, typed, wrong, with_type, emit_args, around_args, if_text, not_text, binop_text,
  math_text,
}
use parena.Ts.Js.{null_text, typeof_text}
use parena.Ts.Types.{given, conditional_type, operands_type, type_of}

abbrev pub with_first : Option Bytes → Option (List Bytes) → Option (List Bytes)
with_first none r = none
with_first (some t) none = none
with_first (some t) (some ts) = some (t ∷ ts)

-- The types of all the texts, if all came out.
abbrev pub types_of : List TsOut → Option (List Bytes)
types_of [] = some []
types_of (o ∷ outs) = with_first (type_of o) (types_of outs)

abbrev pub from_types : Option (List Bytes) → (List Bytes → Option Bytes) → Option Bytes
from_types none f = none
from_types (some ts) f = f ts

pub from_types-none : (r : Option (List Bytes)) → from_types r (λ ts. none) ≡ none
from_types-none none = refl
from_types-none (some ts) = refl

-- No types, if none come for any first type.
pub without_first :
    (o : Option Bytes) (r : Option (List Bytes)) (f : List Bytes → Option Bytes)
    → ((t : Bytes) → from_types r (λ ts. f (t ∷ ts)) ≡ none)
    → from_types (with_first o r) f ≡ none
without_first none r f h = refl
without_first (some t) none f h = refl
without_first (some t) (some ts) f h = h t

pub from_types-with_first :
    (a : Bytes) (r : Option (List Bytes)) (t : Option Bytes)
    → from_types (with_first (some a) r) (λ ts. t) ≡ from_types r (λ ts. t)
from_types-with_first a none t = refl
from_types-with_first a (some ts) t = refl

pub type_of-wrapped :
    (t : Bytes) (o : Out TsError) (f : Bytes → Bytes)
    → type_of (with_type t (and_text o (λ x. emitted (f x)))) ≡ type_of (with_type t o)
type_of-wrapped t (emitted x) f = refl
type_of-wrapped t (failed e) f = refl

pub type_of-emit_args :
    (t : Bytes) (outs : List TsOut)
    → type_of (with_type t (emit_args outs)) ≡ from_types (types_of outs) (λ ts. some t)
unfolding args_text
type_of-emit_args t [] = refl
type_of-emit_args t (typed x a ∷ []) = refl
type_of-emit_args t (wrong e ∷ []) = refl
type_of-emit_args t (wrong e ∷ p ∷ outs) = refl
type_of-emit_args t (typed x a ∷ p ∷ outs) =
    type_of-wrapped t (emit_args (p ∷ outs)) (λ r. x ++ (codes ", " ++ r))
    ∙ (type_of-emit_args t (p ∷ outs)
        ∙ sym (from_types-with_first a (types_of (p ∷ outs)) (some t)))

pub type_of-around_args :
    (before after t : Bytes) (outs : List TsOut)
    → type_of (around_args before after t outs) ≡ from_types (types_of outs) (λ ts. some t)
type_of-around_args before after t outs =
    type_of-wrapped t (emit_args outs) (λ a. before ++ (a ++ after)) ∙ type_of-emit_args t outs

pub type_of-if_text :
    (outs : List TsOut) → type_of (if_text outs) ≡ from_types (types_of outs) conditional_type
unfolding if_text
type_of-if_text [] = refl
type_of-if_text (a ∷ []) = sym (without_first (type_of a) (some []) conditional_type (λ t. refl))
type_of-if_text (a ∷ b ∷ []) = sym (
    without_first (type_of a) (with_first (type_of b) (some [])) conditional_type
      (λ t. without_first (type_of b) (some []) (λ ts. conditional_type (t ∷ ts)) (λ u. refl)))
type_of-if_text (typed x t ∷ typed y u ∷ typed z v ∷ []) = refl
type_of-if_text (wrong e ∷ b ∷ c ∷ []) = refl
type_of-if_text (typed x t ∷ wrong e ∷ c ∷ []) = refl
type_of-if_text (typed x t ∷ typed y u ∷ wrong e ∷ []) = refl
type_of-if_text (a ∷ b ∷ c ∷ d ∷ outs) =
    let last = with_first (type_of d) (types_of outs) in
    sym (
      without_first (type_of a) _ conditional_type (λ t.
        without_first (type_of b) _ (λ ts. conditional_type (t ∷ ts))
          (λ u.
            without_first (type_of c) last (λ ts. conditional_type (t ∷ u ∷ ts))
              (λ v.
                without_first (type_of d) (types_of outs) (λ ts. conditional_type (t ∷ u ∷ v ∷ ts))
                  (λ w. from_types-none (types_of outs))))))

-- A text of one operand, which has a type whatever the operand's.
abbrev pub one_type : Bytes → List Bytes → Option Bytes
one_type t ts = given (length ts == 1) t

pub type_of-one :
    (t : Bytes) (f : List TsOut → TsOut) (outs : List TsOut)
    → ((x u : Bytes) → type_of (f (typed x u ∷ [])) ≡ some t)
    → ((e : TsError) → type_of (f (wrong e ∷ [])) ≡ none)
    → type_of (f []) ≡ none
    → ((a b : TsOut) (os : List TsOut) → type_of (f (a ∷ b ∷ os)) ≡ none)
    → type_of (f outs) ≡ from_types (types_of outs) (one_type t)
type_of-one t f [] one err none_of many = none_of
type_of-one t f (typed x u ∷ []) one err none_of many = one x u
type_of-one t f (wrong e ∷ []) one err none_of many = err e
type_of-one t f (a ∷ b ∷ os) one err none_of many =
    many a b os
    ∙ sym (
        without_first (type_of a) (with_first (type_of b) (types_of os)) (one_type t) (λ u.
          without_first (type_of b) (types_of os) (λ ts. one_type t (u ∷ ts))
            (λ v. two u v (types_of os))))
  where
    two :
        (u v : Bytes) (r : Option (List Bytes))
        → from_types r (λ ts. one_type t (u ∷ v ∷ ts)) ≡ none
    two u v none = refl
    two u v (some ts) = ground arith

pub type_of-not_text :
    (outs : List TsOut)
    → type_of (not_text outs) ≡ from_types (types_of outs) (one_type (codes "boolean"))
unfolding not_text
type_of-not_text outs =
    type_of-one (codes "boolean") not_text outs (λ x u. refl) (λ e. refl) refl (λ a b os. refl)

pub type_of-null_text :
    (outs : List TsOut)
    → type_of (null_text outs) ≡ from_types (types_of outs) (one_type (codes "boolean"))
unfolding null_text
type_of-null_text outs =
    type_of-one (codes "boolean") null_text outs (λ x u. refl) (λ e. refl) refl (λ a b os. refl)

pub type_of-typeof_text :
    (outs : List TsOut)
    → type_of (typeof_text outs) ≡ from_types (types_of outs) (one_type (codes "String"))
unfolding typeof_text
type_of-typeof_text outs =
    type_of-one (codes "String") typeof_text outs (λ x u. refl) (λ e. refl) refl (λ a b os. refl)

-- An operator with other operands than one.
pub type_of-binop_text :
    (h op : Bytes) (kind : ResultKind) (o p : TsOut) (outs : List TsOut)
    → type_of (binop_text h (op, kind) (o ∷ p ∷ outs))
      ≡ from_types (types_of (o ∷ p ∷ outs)) (operands_type h kind)
unfolding binop_text
type_of-binop_text h op kind (typed x t) (typed y u) [] = refl
type_of-binop_text h op kind (wrong e) p [] = refl
type_of-binop_text h op kind (typed x t) (wrong e) [] = refl
type_of-binop_text h op kind o p (q ∷ outs) = sym (
    without_first (type_of o) _ (operands_type h kind) (λ t.
      without_first (type_of p) _ (λ ts. operands_type h kind (t ∷ ts))
        (λ u.
          without_first (type_of q) (types_of outs) (λ ts. operands_type h kind (t ∷ u ∷ ts))
            (λ v. from_types-none (types_of outs)))))

pub shifted :
    (a : Bytes) (r : Option (List Bytes)) (f : List Bytes → Option Bytes)
    → from_types (with_first (some a) r) f ≡ from_types r (λ ts. f (a ∷ ts))
shifted a none f = refl
shifted a (some ts) f = refl

pub if_none : (b : Bool) → none ≡ if◌then◌else◌ {A = Option Bytes} b none none
if_none true = refl
if_none false = refl

-- A test of the count of the types is one of the count of the texts.
pub from_types-counted :
    (p : ℕ → Bool) (t : Bytes) (outs : List TsOut)
    → from_types (types_of outs) (λ ts. given (p (length ts)) t)
      ≡ (if p (length outs) then from_types (types_of outs) (λ ts. some t) else none)
from_types-counted p t [] = refl
from_types-counted p t (wrong e ∷ outs) = if_none (p (suc (length outs)))
from_types-counted p t (typed x a ∷ outs) =
    shifted a (types_of outs) (λ ts. given (p (length ts)) t)
    ∙ (from_types-counted (λ n. p (suc n)) t outs
        ∙ ap (λ r. if p (suc (length outs)) then r else none)
            (sym (from_types-with_first a (types_of outs) (some t))))

pub type_of-math_text :
    (fn : Bytes) (n : ℕ) (outs : List TsOut)
    → type_of (math_text (fn, n) outs)
      ≡ from_types (types_of outs) (λ ts. given (length ts == n) (codes "F64"))
type_of-math_text fn n outs = elim (Bool-cases (length outs == n)) [
  | inl e ↦
      rw (from_types-counted (λ k. k == n) (codes "F64") outs, e)
        (type_of-around_args (fn ++ codes "(") (codes ")") (codes "F64") outs)
  | inr e ↦ rw (from_types-counted (λ k. k == n) (codes "F64") outs, e) refl
]
