-- ===== src/Lua/Shapes.antt =====
-- src/emit_lua.c: the text of a form comes out exactly if those of its parts do and their count fits.
use parena.Prelude.{
  ℕ, suc, ◌≡◌, ◌↔◌, refl, sym, ◌∙◌, Bool, true, false, not, ◌&&◌, List, [], ◌∷◌, ◌++◌, Option, none,
  some, ltb, ◌==◌, if◌then◌else◌, Bytes, codes, strcmp_eq, length, arith, Bool-cases, inl, inr,
}
use parena.Emit.Out.{emitted, failed, and_text, Emits, AllEmit}
use parena.Emit.Shapes.{call_text_iff}
use parena.Lua.Text.{
  LuaError, chained_comparison, LuaOut, if_text, not_text, let_text, has_name, comparison_ops,
  operation_text, fold_text, binop_text,
}
use parena.Lua.Names.{find_math_prim, lua_ident}
use parena.Lua.Expr.{named_text, operator_text}
use parena.Lua.Accepts.{takes_operands, takes_named, takes_other}

pub if_text_iff :
    (outs : List LuaOut) → Emits (if_text outs) ↔ (((length outs == 3) ≡ true) × AllEmit outs)
unfolding if_text
if_text_iff [] = (λ h. absurd h, λ h. absurd (ground arith))
if_text_iff (a ∷ []) = (λ h. absurd h, λ h. absurd (ground arith))
if_text_iff (a ∷ b ∷ []) = (λ h. absurd h, λ h. absurd (ground arith))
if_text_iff (emitted x ∷ emitted y ∷ emitted z ∷ []) = (λ h. (refl, (tt, (tt, (tt, tt)))), λ h. tt)
if_text_iff (failed e ∷ b ∷ c ∷ []) = (λ h. absurd h, λ h. h.1.0)
if_text_iff (emitted x ∷ failed e ∷ c ∷ []) = (λ h. absurd h, λ h. h.1.1.0)
if_text_iff (emitted x ∷ emitted y ∷ failed e ∷ []) = (λ h. absurd h, λ h. h.1.1.1.0)
if_text_iff (a ∷ b ∷ c ∷ d ∷ outs) = (λ h. absurd h, λ h. absurd (ground arith))

pub not_text_iff :
    (outs : List LuaOut) → Emits (not_text outs) ↔ (((length outs == 1) ≡ true) × AllEmit outs)
unfolding not_text
not_text_iff [] = (λ h. absurd h, λ h. absurd (ground arith))
not_text_iff (emitted x ∷ []) = (λ h. (refl, (tt, tt)), λ h. tt)
not_text_iff (failed e ∷ []) = (λ h. absurd h, λ h. h.1.0)
not_text_iff (a ∷ b ∷ outs) = (λ h. absurd h, λ h. absurd (ground arith))

fold_text_iff :
    (h op acc : Bytes) (outs : List LuaOut) → Emits (fold_text h op acc outs) ↔ AllEmit outs
unfolding fold_text
fold_text_iff h op acc [] = (λ k. tt, λ k. tt)
fold_text_iff h op acc (emitted x ∷ outs) =
    let r = fold_text_iff h op (operation_text h op acc x) outs in (λ k. (tt, r.0 k), λ k. r.1 k.1)
fold_text_iff h op acc (failed e ∷ outs) = (λ k. absurd k, λ k. k.0)

folded_iff :
    (h op : Bytes) (o : LuaOut) (outs : List LuaOut)
    → Emits (and_text o (λ acc. fold_text h op acc outs)) ↔ AllEmit (o ∷ outs)
folded_iff h op (emitted x) outs =
    let r = fold_text_iff h op x outs in (λ k. (tt, r.0 k), λ k. r.1 k.1)
folded_iff h op (failed e) outs = (λ k. absurd k, λ k. k.0)

takes_many :
    (h : Bytes) (k : ℕ)
    → takes_operands h (suc (suc k)) ≡ not (ltb 0 k && has_name comparison_ops h)
takes_many h k =
    let e0 : (suc (suc k) == 0) ≡ false = ground arith in
    let e1 : (suc (suc k) == 1) ≡ false = ground arith in
    let e2 : ltb 2 (suc (suc k)) ≡ ltb 0 k = ground arith in rw (e0, e1, e2) refl

-- A text that is refused under two conditions.
refused_or :
    (a b : Bool) (e : LuaError) (x : LuaOut) {t : Bool} {A : Type 0}
    → t ≡ not (a && b)
    → Emits x ↔ A
    → Emits (if a then (if b then failed e else x) else x) ↔ ((t ≡ true) × A)
refused_or true true e x q r = (λ k. absurd k, λ k. absurd (true-false (sym (k.0) ∙ q)))
  where
    true-false : true ≡ false → ⊥
    true-false z = ground arith
refused_or true false e x q r = (λ k. (q, r.0 k), λ k. r.1 k.1)
refused_or false b e x q r = (λ k. (q, r.0 k), λ k. r.1 k.1)

binop_text_iff :
    (h op : Bytes) (outs : List LuaOut)
    → Emits (binop_text h op outs) ↔ ((takes_operands h (length outs) ≡ true) × AllEmit outs)
unfolding binop_text
binop_text_iff h op [] = (λ k. absurd k, λ k. absurd (ground arith))
binop_text_iff h op (o ∷ []) = elim (Bool-cases (strcmp_eq h (codes "-"))) [
  | inl e ↦ rw e (λ k. absurd k, λ k. absurd (ground arith))
  | inr n ↦ rw n (λ k. (refl, (k, tt)), λ k. k.1.0)
]
binop_text_iff h op (o ∷ p ∷ outs) =
    refused_or (ltb 0 (length outs)) (has_name comparison_ops h) chained_comparison
      (and_text o (λ acc. fold_text h op acc (p ∷ outs))) (takes_many h (length outs))
      (folded_iff h op o (p ∷ outs))

named_text_iff :
    (h : Bytes) (outs : List LuaOut) (o : Option (Bytes × ℕ))
    → Emits (named_text h outs o) ↔ ((takes_named (length outs) o ≡ true) × AllEmit outs)
named_text_iff h outs none =
    let r = call_text_iff (codes "M." ++ lua_ident h) outs in (λ k. (refl, r.0 k), λ k. r.1 k.1)
named_text_iff h outs (some (fn, n)) = elim (Bool-cases (length outs == n)) [
  | inl e ↦ let r = call_text_iff fn outs in rw e (λ k. (refl, r.0 k), λ k. r.1 k.1)
  | inr e ↦ rw e (λ k. absurd k, λ k. absurd (ground arith))
]

pub operator_text_iff :
    (h : Bytes) (outs : List LuaOut) (o : Option Bytes)
    → Emits (operator_text h outs o) ↔ ((takes_other h (length outs) o ≡ true) × AllEmit outs)
operator_text_iff h outs none = named_text_iff h outs (find_math_prim h)
operator_text_iff h outs (some op) = binop_text_iff h op outs

pub let_text_iff :
    (bindings body : LuaOut) → Emits (let_text bindings body) ↔ (Emits bindings × Emits body)
unfolding let_text
let_text_iff (emitted b) (emitted x) = (λ k. (tt, tt), λ k. tt)
let_text_iff (emitted b) (failed e) = (λ k. absurd k, λ k. k.1)
let_text_iff (failed e) x = (λ k. absurd k, λ k. k.0)
