-- ===== src/Region/Errors.antt =====
-- The test on one call reports nothing but an escape from `:region/scratch` to `:region/buffer`.
use parena.Prelude.{
  ℕ, ◌<◌, inl, inr, refl, ◌&&◌, [], Option, none, some, arith, ltb, if◌then◌else◌, if_cases, Bytes,
  codes,
}
use parena.Ast.{Node, Nodes, nil, cons, list, symbol, has_type, line_of, text_of, children_of}
use parena.Region.Scope.{Binding, Frame, Scope, scratch, buffer, is_call_named}
use parena.Region.Walk.{
  RegionError, escapes_rank, check_source, check_sources, check_ranked, check_destination,
  check_call_escape, first_is_symbol, arena_scope, arena_rank, alloc_rank_of, alloc_rank, let_frame,
  param_frame,
}
use parena.Region.Ranks.{
  Names, IsRanked, Binds, AllBind, AllRanked, Holds, or_else-Holds, unranked, annotated-Binds,
  scope_bind-AllBind, scope_lookup-Holds,
}

-- From the scratch region to the buffer region.
pub record ScratchToBuffer (e : RegionError) : Type 0 where
  pub from : Names scratch e.source
  pub to : Names buffer e.destination

abbrev pub Only : Option RegionError → Type 0
Only = Holds ScratchToBuffer

-- A source ranked below its destination is scratch, and the destination is the buffer.
below :
    (src dst : Option Bytes) (line r d : ℕ)
    → IsRanked (some r) src
    → IsRanked (some d) dst
    → r < d
    → ScratchToBuffer (record { source = src; destination = dst; line = line })
below src dst line r d hs hd lt = elim (hs.ranked r refl) [
  | inl s ↦ elim (hd.ranked d refl) [
    | inl t ↦ absurd (omega (arith, s.0, t.0))
    | inr t ↦ record { from = s.1; to = t.1 }
  ]
  | inr s ↦ elim (hd.ranked d refl) [
    | inl t ↦ absurd (omega (arith, s.0, t.0))
    | inr t ↦ absurd (omega (arith, s.0, t.0))
  ]
]

check_source-Only :
    (dst : Option Bytes) (d line : ℕ) (b : Option Binding)
    → IsRanked (some d) dst
    → Holds Binds b
    → Only (check_source dst d line b)
check_source-Only dst d line none hd hb = tt
check_source-Only dst d line (some b) hd hb = go b.rank hb
  where
    go :
        (rank : Option ℕ)
        → IsRanked rank b.region_name
        → Only (
            if escapes_rank d rank
            then some (record { source = b.region_name; destination = dst; line = line })
            else none)
    go none h = tt
    go (some r) h =
        if_cases Only (ltb r d) (λ lt. below b.region_name dst line r d h hd (ground arith))
          (λ _. tt)

check_sources-Only :
    (dst : Option Bytes) (d : ℕ) (args : Nodes) (s : Scope)
    → IsRanked (some d) dst
    → AllRanked s
    → Only (check_sources dst d args s)
unfolding check_sources
check_sources-Only dst d nil s hd hs = tt
check_sources-Only dst d (cons a as') s hd hs =
    or_else-Holds ScratchToBuffer _ _
      (if_cases Only (has_type a symbol)
        (λ _. check_source-Only dst d (line_of a) _ hd (scope_lookup-Holds s (text_of a) hs))
        (λ _. tt))
      (check_sources-Only dst d as' s hd hs)

check_ranked-Only :
    (dst : Option Bytes) (rank : Option ℕ) (args : Nodes) (s : Scope)
    → IsRanked rank dst
    → AllRanked s
    → Only (check_ranked dst rank args s)
check_ranked-Only dst none args s hd hs = tt
check_ranked-Only dst (some d) args s hd hs = check_sources-Only dst d args s hd hs

check_destination-Only :
    (b : Option Binding) (args : Nodes) (s : Scope)
    → Holds Binds b
    → AllRanked s
    → Only (check_destination b args s)
check_destination-Only none args s hb hs = tt
check_destination-Only (some b) args s hb hs = check_ranked-Only _ b.rank args s hb hs

pub check_call_escape-Only : (ns : Nodes) (s : Scope) → AllRanked s → Only (check_call_escape ns s)
unfolding check_call_escape
check_call_escape-Only (cons f (cons d (cons a as'))) s hs =
    if_cases Only (has_type d symbol)
      (λ _. check_destination-Only _ (cons a as') s (scope_lookup-Holds s (text_of d) hs) hs)
      (λ _. tt)
check_call_escape-Only _ s hs = tt

pub arena_scope-AllRanked : (v : Node) (s : Scope) → AllRanked s → AllRanked (arena_scope v s)
unfolding arena_scope
arena_scope-AllRanked v s hs = (scope_bind-AllBind [] _ tt (annotated-Binds _ _), hs)

alloc_rank-IsRanked :
    (n : Node) (s : Scope) → AllRanked s → IsRanked (alloc_rank n s).0 (alloc_rank n s).1
unfolding alloc_rank
alloc_rank-IsRanked n s hs =
    if_cases P (is_call_named n (codes "alloc")) (λ _. of_children (children_of n))
      (λ _. unranked none)
  where
    P : Option ℕ × Option Bytes → Type 0
    P r = IsRanked r.0 r.1

    of_lookup : (b : Option Binding) → Holds Binds b → P (arena_rank b)
    of_lookup none h = unranked none
    of_lookup (some b) h = h

    of_children : (ns : Nodes) → P (alloc_rank_of ns s)
    of_children (cons f (cons a as')) =
        if_cases P (has_type a symbol) (λ _. of_lookup _ (scope_lookup-Holds s (text_of a) hs))
          (λ _. unranked none)
    of_children _ = unranked none

pub let_frame-AllBind :
    (ns : Nodes) (s : Scope) (f : Frame) → AllRanked s → AllBind f → AllBind (let_frame ns s f)
unfolding let_frame
let_frame-AllBind (cons n (cons e rest)) s f hs hf = let_frame-AllBind rest s _ hs (
    if_cases AllBind (has_type n symbol)
      (λ _. scope_bind-AllBind f _ hf (alloc_rank-IsRanked e s hs)) (λ _. hf))
let_frame-AllBind _ s f hs hf = hf

pub param_frame-AllBind : (ns : Nodes) (f : Frame) → AllBind f → AllBind (param_frame ns f)
unfolding param_frame
param_frame-AllBind nil f hf = hf
param_frame-AllBind (cons p ps) f hf = param_frame-AllBind ps _ (
    if_cases AllBind (has_type p list && first_is_symbol (children_of p))
      (λ _. scope_bind-AllBind f _ hf (annotated-Binds _ _)) (λ _. hf))
