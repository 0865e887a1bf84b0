-- ===== src/Region/Walk.antt =====
-- src/region.c: the walk over one program. An error is NULL or the parts of its message.
use parena.Prelude.{
  ℕ, Bool, false, ◌&&◌, [], ◌∷◌, Option, none, some, ltb, if◌then◌else◌, Bytes, codes,
}
use parena.Ast.{
  Node, Nodes, node, nil, cons, list, vec, symbol, has_type, line_of, text_of, children_of,
}
use parena.Region.Scope.{
  Binding, Frame, Scope, scope_bind, or_else, scope_lookup, is_call_named, find_keyword_child,
  annotated,
}

-- Compile Error: Escaping region pointer from `source` to `destination` at line `line`
pub record RegionError : Type 0 where
  pub source : Option Bytes
  pub destination : Option Bytes
  pub line : ℕ

-- The test on one source argument, against a destination of rank `rank`.
abbrev pub escapes_rank : ℕ → Option ℕ → Bool
escapes_rank rank none = false
escapes_rank rank (some r) = ltb r rank

abbrev pub check_source : Option Bytes → ℕ → ℕ → Option Binding → Option RegionError
check_source dst rank line none = none
check_source dst rank line (some src) =
    if escapes_rank rank src.rank
    then some (record { source = src.region_name; destination = dst; line = line })
    else none

-- The loop over the arguments behind the destination.
unfoldable pub check_sources : Option Bytes → ℕ → Nodes → Scope → Option RegionError
check_sources dst rank nil scope = none
check_sources dst rank (cons arg args) scope =
    or_else
      (if has_type arg symbol
        then check_source dst rank (line_of arg) (scope_lookup scope (text_of arg))
        else none)
      (check_sources dst rank args scope)

abbrev pub check_ranked : Option Bytes → Option ℕ → Nodes → Scope → Option RegionError
check_ranked dst none args scope = none
check_ranked dst (some rank) args scope = check_sources dst rank args scope

abbrev pub check_destination : Option Binding → Nodes → Scope → Option RegionError
check_destination none args scope = none
check_destination (some dest) args scope = check_ranked dest.region_name dest.rank args scope

-- On the children of the call.
unfoldable pub check_call_escape : Nodes → Scope → Option RegionError
check_call_escape (cons fn (cons dest (cons arg args))) scope =
    if has_type dest symbol
    then check_destination (scope_lookup scope (text_of dest)) (cons arg args) scope
    else none
check_call_escape _ scope = none

-- The second child, if the form has the shape that its rule wants.
abbrev pub second_is : (Node → Bool) → Nodes → Bool
second_is p (cons h (cons v body)) = p v
second_is p _ = false

abbrev pub first_is_symbol : Nodes → Bool
first_is_symbol nil = false
first_is_symbol (cons n ns) = has_type n symbol

abbrev pub first_text : Nodes → Bytes
first_text nil = []
first_text (cons n ns) = text_of n

abbrev pub is_arena_binding : Node → Bool
is_arena_binding v = has_type v vec && first_is_symbol (children_of v)

-- The scope of the body of a `with-arena`.
unfoldable pub arena_scope : Node → Scope → Scope
arena_scope v scope =
    scope_bind [] (annotated (first_text (children_of v)) (find_keyword_child (children_of v)))
    ∷ scope

-- What `alloc_rank` returns, and `*out_region_name`.
abbrev pub arena_rank : Option Binding → Option ℕ × Option Bytes
arena_rank none = (none, none)
arena_rank (some b) = (b.rank, b.region_name)

abbrev pub alloc_rank_of : Nodes → Scope → Option ℕ × Option Bytes
alloc_rank_of (cons fn (cons arena_expr args)) scope =
    if has_type arena_expr symbol
    then arena_rank (scope_lookup scope (text_of arena_expr))
    else (none, none)
alloc_rank_of _ scope = (none, none)

unfoldable pub alloc_rank : Node → Scope → Option ℕ × Option Bytes
alloc_rank call scope =
    if is_call_named call (codes "alloc")
    then alloc_rank_of (children_of call) scope
    else (none, none)

-- The bindings of a `let`, by pairs; an expression is ranked in the scope outside.
unfoldable pub let_frame : Nodes → Scope → Frame → Frame
let_frame (cons name (cons expr rest)) scope frame = let_frame rest scope (
    if has_type name symbol
    then scope_bind frame (record {
      name = text_of name;
      rank = (alloc_rank expr scope).0;
      region_name = (alloc_rank expr scope).1;
    })
    else frame)
let_frame _ scope frame = frame

-- The expressions of a `let` are walked in the scope outside, so the source's loop, which binds each
-- name as it goes, is two: this walk and `let_frame`.
unfoldable mutual
  pub walk : Node → Scope → Option RegionError
  walk (node t line text children) scope =
      let n = node t line text children in
      let all = walk_children children scope in
      let arena = walk_arena_body children scope in
      let bound = walk_let_body children scope in
      let call = or_else (check_call_escape children scope) all in
      if is_call_named n (codes "with-arena")
      then (if second_is is_arena_binding children then arena else all)
      else if is_call_named n (codes "let")
      then (if second_is (λ v. has_type v vec) children then bound else all)
      else if has_type n list && first_is_symbol children
      then call
      else all

  pub walk_children : Nodes → Scope → Option RegionError
  walk_children nil scope = none
  walk_children (cons n ns) scope = or_else (walk n scope) (walk_children ns scope)

  pub walk_arena_body : Nodes → Scope → Option RegionError
  walk_arena_body (cons h (cons v body)) scope = walk_children body (arena_scope v scope)
  walk_arena_body _ scope = none

  pub walk_let_body : Nodes → Scope → Option RegionError
  walk_let_body (cons h (cons (node vt vl vs bindings) body)) scope =
      or_else (walk_let_exprs bindings scope)
        (walk_children body (let_frame bindings scope [] ∷ scope))
  walk_let_body _ scope = none

  pub walk_let_exprs : Nodes → Scope → Option RegionError
  walk_let_exprs (cons name (cons expr rest)) scope =
      let more = walk_let_exprs rest scope in
      let err = walk expr scope in if has_type name symbol then or_else err more else more
  walk_let_exprs _ scope = none

-- The base scope of a function, from the annotations of its parameters.
unfoldable pub param_frame : Nodes → Frame → Frame
param_frame nil frame = frame
param_frame (cons param params) frame = param_frame params (
    if has_type param list && first_is_symbol (children_of param)
    then scope_bind frame
        (annotated (first_text (children_of param)) (find_keyword_child (children_of param)))
    else frame)

abbrev pub analyze_parts : Nodes → Option RegionError
analyze_parts (cons head (cons name (cons params body))) =
    if has_type params vec
    then walk_children body (param_frame (children_of params) [] ∷ [])
    else none
analyze_parts _ = none

unfoldable pub analyze_defn : Node → Option RegionError
analyze_defn defn = analyze_parts (children_of defn)

unfoldable pub analyze_forms : Nodes → Option RegionError
analyze_forms nil = none
analyze_forms (cons form forms) =
    or_else (if is_call_named form (codes "defn") then analyze_defn form else none)
      (analyze_forms forms)

unfoldable pub region_analyze : Node → Option RegionError
region_analyze program = analyze_forms (children_of program)
