-- ===== src/Region/Only.antt =====
-- The walk reports nothing but an escape from `:region/scratch` to `:region/buffer`.
use parena.Prelude.{◌≡◌, ◌&&◌, [], ◌∷◌, Option, none, some, if◌then◌else◌, if_cases, codes}
use parena.Ast.{Node, Nodes, node, nil, cons, list, vec, symbol, has_type, children_of}
use parena.Region.Scope.{Scope, or_else, is_call_named}
use parena.Region.Walk.{
  RegionError, check_call_escape, second_is, first_is_symbol, is_arena_binding, arena_scope,
  let_frame, walk, walk_children, walk_arena_body, walk_let_body, walk_let_exprs, param_frame,
  analyze_parts, analyze_defn, analyze_forms, region_analyze,
}
use parena.Region.Ranks.{AllRanked, or_else-Holds}
use parena.Region.Errors.{
  ScratchToBuffer, Only, check_call_escape-Only, arena_scope-AllRanked, let_frame-AllBind,
  param_frame-AllBind,
}

either : (a b : Option RegionError) → Only a → Only b → Only (or_else a b)
either = or_else-Holds ScratchToBuffer

mutual
  unfolding walk

  walk-Only : (n : Node) (s : Scope) → AllRanked s → Only (walk n s)
  walk-Only (node t l x ns) s hs =
      let n = node t l x ns in
      let all = walk_children-Only ns s hs in
      if_cases Only (is_call_named n (codes "with-arena"))
        (λ _.
          if_cases Only (second_is is_arena_binding ns) (λ _. walk_arena_body-Only ns s hs)
            (λ _. all))
        λ _.
          if_cases Only (is_call_named n (codes "let"))
            (λ _.
              if_cases Only (second_is (λ v. has_type v vec) ns) (λ _. walk_let_body-Only ns s hs)
                (λ _. all))
            λ _.
              if_cases Only (has_type n list && first_is_symbol ns)
                (λ _.
                  either (check_call_escape ns s) (walk_children ns s)
                    (check_call_escape-Only ns s hs) all)
                (λ _. all)

  walk_children-Only : (ns : Nodes) (s : Scope) → AllRanked s → Only (walk_children ns s)
  walk_children-Only nil s hs = tt
  walk_children-Only (cons n ns) s hs =
      either (walk n s) (walk_children ns s) (walk-Only n s hs) (walk_children-Only ns s hs)

  walk_arena_body-Only : (ns : Nodes) (s : Scope) → AllRanked s → Only (walk_arena_body ns s)
  walk_arena_body-Only nil s hs = tt
  walk_arena_body-Only (cons h nil) s hs = tt
  walk_arena_body-Only (cons h (cons v body)) s hs =
      walk_children-Only body (arena_scope v s) (arena_scope-AllRanked v s hs)

  walk_let_body-Only : (ns : Nodes) (s : Scope) → AllRanked s → Only (walk_let_body ns s)
  walk_let_body-Only nil s hs = tt
  walk_let_body-Only (cons h nil) s hs = tt
  walk_let_body-Only (cons h (cons (node t l x bs) body)) s hs =
      either (walk_let_exprs bs s) (walk_children body (let_frame bs s [] ∷ s))
        (walk_let_exprs-Only bs s hs)
        (walk_children-Only body (let_frame bs s [] ∷ s) (let_frame-AllBind bs s [] hs tt, hs))

  walk_let_exprs-Only : (ns : Nodes) (s : Scope) → AllRanked s → Only (walk_let_exprs ns s)
  walk_let_exprs-Only nil s hs = tt
  walk_let_exprs-Only (cons n nil) s hs = tt
  walk_let_exprs-Only (cons n (cons e rest)) s hs =
      if_cases Only (has_type n symbol)
        (λ _.
          either (walk e s) (walk_let_exprs rest s) (walk-Only e s hs)
            (walk_let_exprs-Only rest s hs))
        (λ _. walk_let_exprs-Only rest s hs)

analyze_parts-Only : (ns : Nodes) → Only (analyze_parts ns)
analyze_parts-Only (cons h (cons n (cons ps body))) =
    if_cases Only (has_type ps vec)
      (λ _.
        walk_children-Only body (param_frame (children_of ps) [] ∷ [])
          (param_frame-AllBind (children_of ps) [] tt, tt))
      (λ _. tt)
analyze_parts-Only _ = tt

analyze_forms-Only : (ns : Nodes) → Only (analyze_forms ns)
unfolding analyze_forms analyze_defn
analyze_forms-Only nil = tt
analyze_forms-Only (cons n ns) =
    either (if is_call_named n (codes "defn") then analyze_defn n else none) (analyze_forms ns)
      (if_cases Only (is_call_named n (codes "defn")) (λ _. analyze_parts-Only (children_of n))
        (λ _. tt))
      (analyze_forms-Only ns)

-- Every error that the analyzer reports, for any program, is an escape from `:region/scratch` to
-- `:region/buffer`, so its message names these two regions in this order.
pub region_analyze-ScratchToBuffer :
    (program : Node) {e : RegionError} → region_analyze program ≡ some e → ScratchToBuffer e
unfolding region_analyze
region_analyze-ScratchToBuffer program h = rw h at (analyze_forms-Only (children_of program))
