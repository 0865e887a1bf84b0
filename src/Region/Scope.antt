-- ===== src/Region/Scope.antt =====
-- src/region.c: bindings and scopes. A rank of -1 is `none`. The array of a scope is the list of its
-- bindings, the latest first, which is the order of `scope_lookup`; a scope comes before its parent.
use parena.Prelude.{
  ℕ, Bool, false, ◌&&◌, List, [], ◌∷◌, Option, none, some, ltb, if◌then◌else◌, Bytes, codes, length,
  strcmp_eq,
}
use parena.Ast.{Node, Nodes, nil, cons, list, symbol, keyword, has_type, text_of, children_of}

-- MAX_BINDINGS
abbrev pub max_bindings : ℕ
max_bindings = 64

pub record Binding : Type 0 where
  pub name : Bytes
  pub rank : Option ℕ
  pub region_name : Option Bytes

abbrev pub Frame : Type 0
Frame = List Binding

abbrev pub Scope : Type 0
Scope = List Frame

-- A binding past the limit is dropped.
unfoldable pub scope_bind : Frame → Binding → Frame
scope_bind s b = if ltb (length s) max_bindings then b ∷ s else s

unfoldable pub frame_lookup : Frame → Bytes → Option Binding
frame_lookup [] name = none
frame_lookup (b ∷ bs) name = if strcmp_eq b.name name then some b else frame_lookup bs name

abbrev pub or_else {ℓ} : {A : Type ℓ} → Option A → Option A → Option A
or_else none b = b
or_else (some a) b = some a

unfoldable pub scope_lookup : Scope → Bytes → Option Binding
scope_lookup [] name = none
scope_lookup (f ∷ fs) name = or_else (frame_lookup f name) (scope_lookup fs name)

abbrev pub scratch : Bytes
scratch = codes ":region/scratch"

abbrev pub buffer : Bytes
buffer = codes ":region/buffer"

unfoldable pub region_rank_for : Bytes → Option ℕ
region_rank_for kw =
    if strcmp_eq kw scratch then some 0 else if strcmp_eq kw buffer then some 2 else none

unfoldable pub is_symbol : Node → Bytes → Bool
is_symbol n text = has_type n symbol && strcmp_eq (text_of n) text

abbrev pub head_is_symbol : Nodes → Bytes → Bool
head_is_symbol nil text = false
head_is_symbol (cons h rest) text = is_symbol h text

unfoldable pub is_call_named : Node → Bytes → Bool
is_call_named n fn_name = has_type n list && head_is_symbol (children_of n) fn_name

unfoldable pub find_keyword_child : Nodes → Option Bytes
find_keyword_child nil = none
find_keyword_child (cons n ns) =
    if has_type n keyword then some (text_of n) else find_keyword_child ns

-- A name bound at the region of its annotation, or unconstrained.
unfoldable pub annotated : Bytes → Option Bytes → Binding
annotated name none = record { name = name; rank = none; region_name = none }
annotated name (some kw) = record { name = name; rank = region_rank_for kw; region_name = some kw }
