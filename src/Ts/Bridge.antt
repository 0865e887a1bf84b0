-- ===== src/Ts/Bridge.antt =====
-- src/emit_ts.c: the types of the forms of the bridge to JavaScript, from their arguments.
use parena.Prelude.{
  ℕ, suc, ◌%◌, ◌≡◌, inl, inr, refl, sym, ◌∙◌, Bool, true, false, not, ◌&&◌, List, [], ◌∷◌, ◌++◌,
  Option, none, some, arith, ◌==◌, if◌then◌else◌, Bytes, codes, c_str, length, Bool-cases,
}
use parena.Ast.{
  Node, Nodes, node, nil, cons, NodeType, list, vec, symbol, keyword, number, string, colon, at,
  has_type, text_of,
}
use parena.Emit.Out.{Out, emitted, failed, and_text, args_text}
use parena.Ts.Literal.{ts_string_literal}
use parena.Ts.Names.{is_js_ident, is_global_path}
use parena.Ts.Context.{TsTypeCtx}
use parena.Ts.Text.{TsError, TsOut, typed, wrong, and_typed, only_text, with_type, around_args, cat}
use parena.Ts.Js.{
  subscript_text, any, is_member, global_text, get_text, method_text, call_fn_text, new_text,
  defined_text, pair_text, pair_texts, obj_text, sum_text, str_text,
}
use parena.Ts.Expr.{emit_ts_expr, emit_ts_all}
use parena.Ts.Types.{
  starts_with_string, is_one_string, is_one_path, has_method, given, type_of, has_keys,
}
use parena.Ts.Shapes.{
  with_first, types_of, from_types, from_types-none, from_types-with_first, type_of-wrapped,
  type_of-around_args, shifted, if_none,
}

pub type_of-call_fn_text :
    (outs : List TsOut)
    → type_of (call_fn_text outs)
      ≡ from_types (types_of outs) (λ ts. given (not (length ts == 0)) any)
unfolding call_fn_text
type_of-call_fn_text [] = ground arith
type_of-call_fn_text (wrong e ∷ outs) = refl
type_of-call_fn_text (typed x a ∷ outs) =
    type_of-around_args (x ++ codes "(") (codes ")") any outs
    ∙ sym (
        shifted a (types_of outs) (λ ts. given (not (length ts == 0)) any)
        ∙ nonzero (types_of outs))
  where
    nonzero :
        (r : Option (List Bytes))
        → from_types r (λ ts. given (not (length (a ∷ ts) == 0)) any)
          ≡ from_types r (λ ts. some any)
    nonzero none = refl
    nonzero (some ts) = ground arith

pub type_of-str_text :
    (outs : List TsOut)
    → type_of (str_text outs) ≡ from_types (types_of outs) (λ ts. some (codes "String"))
type_of-str_text outs =
    type_of-wrapped (codes "String") (sum_text outs) (λ r. cat (codes "(\"\"" ∷ r ∷ codes ")" ∷ []))
    ∙ sums outs
  where
    sums :
        (os : List TsOut)
        → type_of (with_type (codes "String") (sum_text os))
          ≡ from_types (types_of os) (λ ts. some (codes "String"))
    sums [] = refl
    sums (wrong e ∷ os) = refl
    sums (typed x a ∷ os) =
        type_of-wrapped (codes "String") (sum_text os) (λ r. cat (codes " + " ∷ x ∷ r ∷ []))
        ∙ (sums os ∙ sym (from_types-with_first a (types_of os) (some (codes "String"))))

pub string-typed :
    (ctx : TsTypeCtx) (k : Node)
    → has_type k string ≡ true
    → type_of (emit_ts_expr ctx k) ≡ some (codes "String")
unfolding emit_ts_expr
string-typed ctx (node list l s c) h = absurd (ground arith)
string-typed ctx (node vec l s c) h = absurd (ground arith)
string-typed ctx (node NodeType.map l s c) h = absurd (ground arith)
string-typed ctx (node symbol l s c) h = absurd (ground arith)
string-typed ctx (node keyword l s c) h = absurd (ground arith)
string-typed ctx (node string l s c) h = refl
string-typed ctx (node number l s c) h = absurd (ground arith)
string-typed ctx (node colon l s c) h = absurd (ground arith)
string-typed ctx (node at l s c) h = absurd (ground arith)

abbrev pub arg_types : TsTypeCtx → Nodes → Option (List Bytes)
arg_types ctx args = types_of (emit_ts_all ctx args)

-- A type that depends on a test of the arguments.
abbrev pub tested : Bool → Bytes → Option (List Bytes) → Option Bytes
tested b t r = if b then from_types r (λ ts. some t) else none

pub from_types-given :
    (b : Bool) (t : Bytes) (r : Option (List Bytes)) → tested b t r ≡ from_types r (λ ts. given b t)
from_types-given true t r = refl
from_types-given false t r = sym (from_types-none r)

pub type_of-global_text :
    (ctx : TsTypeCtx) (args : Nodes)
    → type_of (global_text args) ≡ tested (is_one_path args) any (arg_types ctx args)
unfolding global_text emit_ts_expr
type_of-global_text ctx nil = refl
type_of-global_text ctx (cons k nil) = elim (Bool-cases (has_type k string)) [
  | inl h ↦ elim (Bool-cases (is_global_path (text_of k))) [
    | inl p ↦ rw (h, p, string-typed ctx k h) refl
    | inr p ↦ rw (h, p) refl
  ]
  | inr h ↦ rw h refl
]
type_of-global_text ctx (cons k (cons n ns)) = refl

pub type_of-defined_text :
    (ctx : TsTypeCtx) (args : Nodes)
    → type_of (defined_text args)
      ≡ tested (is_one_string args) (codes "boolean") (arg_types ctx args)
unfolding defined_text emit_ts_expr
type_of-defined_text ctx nil = refl
type_of-defined_text ctx (cons k nil) = elim (Bool-cases (has_type k string)) [
  | inl h ↦ rw (h, string-typed ctx k h) refl
  | inr h ↦ rw h refl
]
type_of-defined_text ctx (cons k (cons n ns)) = refl

pub type_of-new_text :
    (ctx : TsTypeCtx) (args : Nodes)
    → type_of (new_text args (emit_ts_all ctx args))
      ≡ tested (starts_with_string args) any (arg_types ctx args)
unfolding new_text emit_ts_expr
type_of-new_text ctx nil = refl
type_of-new_text ctx (cons k rest) = elim (Bool-cases (has_type k string)) [
  | inl h ↦
      rw (h, string-typed ctx k h)
        (type_of-around_args (cat (codes "new " ∷ c_str (text_of k) ∷ codes "(" ∷ [])) (codes ")")
            any (emit_ts_all ctx rest)
          ∙ sym (from_types-with_first (codes "String") (arg_types ctx rest) (some any)))
  | inr h ↦ rw h refl
]

first_of : (b c : Bool) → (b && c) ≡ true → b ≡ true
first_of true c e = refl
first_of false c e = e

-- A member is a string, so it has a type.
member-typed :
    (ctx : TsTypeCtx) (k : Node)
    → is_member k ≡ true
    → type_of (emit_ts_expr ctx k) ≡ some (codes "String")
member-typed ctx k h = string-typed ctx k (first_of (has_type k string) (is_js_ident (text_of k)) h)

subscript-typed :
    (o k : TsOut)
    → type_of (subscript_text o k) ≡ from_types (types_of (o ∷ k ∷ [])) (λ ts. some any)
subscript-typed (typed x t) (typed y u) = refl
subscript-typed (typed x t) (wrong e) = refl
subscript-typed (wrong e) k = refl

dotted-typed :
    (o : TsOut) (k : Option Bytes) (f : Bytes → Bytes) {u : Bytes}
    → k ≡ some u
    → type_of (and_typed o (λ x t. typed (f x) any))
      ≡ from_types (with_first (type_of o) (with_first k (some []))) (λ ts. some any)
dotted-typed (typed x t) k f h = rw h refl
dotted-typed (wrong e) k f h = refl

pub type_of-get_text :
    (ctx : TsTypeCtx) (by_name : Bool) (args : Nodes)
    → type_of (get_text by_name args (emit_ts_all ctx args))
      ≡ tested (length (emit_ts_all ctx args) == 2) any (arg_types ctx args)
unfolding get_text emit_ts_expr
type_of-get_text ctx by_name nil = refl
type_of-get_text ctx by_name (cons n nil) = refl
type_of-get_text ctx by_name (cons n (cons k nil)) = get (is_member k && by_name) refl
  where
    get :
        (b : Bool)
        → (is_member k && by_name) ≡ b
        → type_of (
            if b
            then and_typed
                (emit_ts_expr ctx n)
                (λ obj t. typed (cat (obj ∷ codes "." ∷ text_of k ∷ [])) any)
            else subscript_text (emit_ts_expr ctx n) (emit_ts_expr ctx k))
          ≡ from_types (arg_types ctx (cons n (cons k nil))) (λ ts. some any)
    get true h =
        dotted-typed (emit_ts_expr ctx n) (type_of (emit_ts_expr ctx k))
          (λ obj. cat (obj ∷ codes "." ∷ text_of k ∷ []))
          (member-typed ctx k (first_of (is_member k) by_name h))
    get false h = subscript-typed (emit_ts_expr ctx n) (emit_ts_expr ctx k)
type_of-get_text ctx by_name (cons n (cons k (cons m ms))) =
    rw (three (length (emit_ts_all ctx ms))) refl
  where
    three : (l : ℕ) → (suc (suc (suc l)) == 2) ≡ false
    three l = ground arith

method-typed :
    (o : TsOut) (k : Option Bytes) (f : Bytes → Bytes) (outs : List TsOut) {u : Bytes}
    → k ≡ some u
    → type_of (and_typed o (λ x t. around_args (f x) (codes ")") any outs))
      ≡ from_types (with_first (type_of o) (with_first k (types_of outs))) (λ ts. some any)
method-typed (typed x t) k f outs {u} h = rw h (
    type_of-around_args (f x) (codes ")") any outs
    ∙ (sym (from_types-with_first u (types_of outs) (some any))
        ∙ sym (from_types-with_first t (with_first (some u) (types_of outs)) (some any))))
method-typed (wrong e) k f outs h = refl

pub type_of-method_text :
    (ctx : TsTypeCtx) (args : Nodes)
    → type_of (method_text args (emit_ts_all ctx args))
      ≡ tested (has_method args) any (arg_types ctx args)
unfolding method_text emit_ts_expr
type_of-method_text ctx nil = refl
type_of-method_text ctx (cons n nil) = refl
type_of-method_text ctx (cons n (cons m rest)) = elim (Bool-cases (is_member m)) [
  | inl h ↦ rw h (
      method-typed (emit_ts_expr ctx n) (type_of (emit_ts_expr ctx m))
        (λ obj. cat (obj ∷ codes "." ∷ text_of m ∷ codes "(" ∷ [])) (emit_ts_all ctx rest)
        (member-typed ctx m h))
  | inr h ↦ rw h refl
]

args-first :
    (t : Bytes) (o : Out TsError) (os : List (Out TsError))
    → type_of (with_type t (args_text (o ∷ os)))
      ≡ type_of (with_type t (and_text o (λ x. args_text os)))
unfolding args_text
args-first t (emitted x) [] = refl
args-first t (failed e) [] = refl
args-first t (emitted x) (p ∷ os) =
    type_of-wrapped t (args_text (p ∷ os)) (λ r. x ++ (codes ", " ++ r))
args-first t (failed e) (p ∷ os) = refl

tested-with_first :
    (b : Bool) (t a : Bytes) (r : Option (List Bytes))
    → tested b t r ≡ tested b t (with_first (some a) r)
tested-with_first true t a r = sym (from_types-with_first a r (some t))
tested-with_first false t a r = refl

pair-typed :
    (k : Node) (key v : TsOut) (more : Out TsError) (keys : Bool) (r : Option (List Bytes))
    → (has_type k string ≡ true → type_of key ≡ some (codes "String"))
    → type_of (with_type any more) ≡ tested keys any r
    → type_of (with_type any (and_text (pair_text k v) (λ x. more)))
      ≡ tested (has_type k string && keys) any (with_first (type_of key) (with_first (type_of v) r))
pair-typed k key v more keys r ks ih = elim (Bool-cases (has_type k string)) [
  | inl h ↦ rw (h, ks h) (valued v)
  | inr h ↦ rw h refl
]
  where
    valued :
        (o : TsOut)
        → type_of (
            with_type any (
              and_text
                (and_text
                  (only_text o)
                  (λ x. emitted (cat (ts_string_literal (text_of k) ∷ codes ": " ∷ x ∷ []))))
                (λ x. more)))
          ≡ tested keys any (with_first (some (codes "String")) (with_first (type_of o) r))
    valued (wrong e) = if_none keys
    valued (typed x u) =
        ih
        ∙ (tested-with_first keys any u r
            ∙ tested-with_first keys any (codes "String") (with_first (some u) r))

pairs-typed :
    (ctx : TsTypeCtx) (args : Nodes)
    → (length (emit_ts_all ctx args) % 2 == 0) ≡ true
    → type_of (with_type any (args_text (pair_texts args (emit_ts_all ctx args))))
      ≡ tested (has_keys args) any (arg_types ctx args)
unfolding pair_texts emit_ts_expr
pairs-typed ctx nil h = unfold args_text in refl
pairs-typed ctx (cons k nil) h = absurd (ground arith)
pairs-typed ctx (cons k (cons n rest)) h =
    args-first any _ _
    ∙ pair-typed k (emit_ts_expr ctx k) (emit_ts_expr ctx n)
        (args_text (pair_texts rest (emit_ts_all ctx rest))) (has_keys rest) (arg_types ctx rest)
        (string-typed ctx k) (pairs-typed ctx rest (two (length (emit_ts_all ctx rest)) h))
  where
    two : (l : ℕ) → (suc (suc l) % 2 == 0) ≡ true → (l % 2 == 0) ≡ true
    two l e = ground arith

pub type_of-obj_text :
    (ctx : TsTypeCtx) (args : Nodes)
    → type_of (obj_text args (emit_ts_all ctx args))
      ≡ tested (length (emit_ts_all ctx args) % 2 == 0 && has_keys args) any (arg_types ctx args)
unfolding obj_text
type_of-obj_text ctx args = elim (Bool-cases (length (emit_ts_all ctx args) % 2 == 0)) [
  | inl h ↦ rw h (
      type_of-wrapped any (args_text (pair_texts args (emit_ts_all ctx args)))
        (λ ps. cat (codes "{" ∷ ps ∷ codes "}" ∷ []))
      ∙ pairs-typed ctx args h)
  | inr h ↦ rw h refl
]
