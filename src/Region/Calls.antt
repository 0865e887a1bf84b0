-- ===== src/Region/Calls.antt =====
-- src/region.c: `check_call_escape` reports exactly the calls in which a pointer escapes.
use parena.Prelude.{
  ℕ, ◌<◌, ◌≡◌, ◌↔◌, ◌⊎◌, refl, ◌∙◌, ap, true, false, Option, none, some, arith, if◌then◌else◌,
  ltb→lt, lt→ltb, Bool-cases, Option-cases, inl, inr, Bytes,
}
use parena.Ast.{Node, Nodes, nil, cons, symbol, has_type, text_of, line_of}
use parena.Region.Scope.{Binding, Scope, or_else, scope_lookup}
use parena.Region.Walk.{RegionError, escapes_rank, check_source, check_sources, check_call_escape}

abbrev pub Found : Option RegionError → Type 0
Found none = ⊥
Found (some e) = Unit

-- A name that is bound at a rank.
pub record BoundAt (scope : Scope) (name : Bytes) (rank : ℕ) : Type 0 where
  pub binding : Binding
  pub looked_up : scope_lookup scope name ≡ some binding
  pub ranked : binding.rank ≡ some rank

-- An argument that names a binding of a rank below `rank`.
pub data Lower (rank : ℕ) (scope : Scope) : Nodes → Type 0 where
  here :
      {arg : Node} {args : Nodes} {r : ℕ}
      → has_type arg symbol ≡ true
      → BoundAt scope (text_of arg) r
      → r < rank
      → Lower rank scope (cons arg args)
  there : {arg : Node} {args : Nodes} → Lower rank scope args → Lower rank scope (cons arg args)

-- In a call (fn dest args...), the destination is bound at a rank and an argument at one below it.
pub record IsEscape (scope : Scope) (dest : Node) (args : Nodes) : Type 0 where
  pub named : has_type dest symbol ≡ true
  pub rank : ℕ
  pub bound : BoundAt scope (text_of dest) rank
  pub lower : Lower rank scope args

false-true : false ≡ true → ⊥
false-true e = ground arith

Found-either : (a b : Option RegionError) → Found (or_else a b) → Found a ⊎ Found b
Found-either none b h = inr h
Found-either (some e) b h = inl h

either-Found : (a b : Option RegionError) → Found a ⊎ Found b → Found (or_else a b)
either-Found none b (inl h) = absurd h
either-Found none b (inr h) = h
either-Found (some e) b h = tt

escapes_below :
    (rank : ℕ) (o : Option ℕ) → escapes_rank rank o ≡ true → (r : ℕ) × ((o ≡ some r) × (r < rank))
escapes_below rank none h = absurd (false-true h)
escapes_below rank (some r) h = (r, (refl, ltb→lt r rank h))

source_bound :
    (scope : Scope) (name : Bytes) (dst : Option Bytes) (rank line : ℕ)
    → Found (check_source dst rank line (scope_lookup scope name))
    → (r : ℕ) × (BoundAt scope name r × (r < rank))
source_bound scope name dst rank line h = elim (Option-cases (scope_lookup scope name)) [
  | inl e ↦ absurd (rw e at h)
  | inr (b, e) ↦ elim (Bool-cases (escapes_rank rank b.rank)) [
    | inl t ↦
        let (r, (q, l)) = escapes_below rank b.rank t in
        (r, (record { binding = b; looked_up = e; ranked = q }, l))
    | inr f ↦ absurd (rw (e, f) at h)
  ]
]

bound_source :
    (scope : Scope) (name : Bytes) (dst : Option Bytes) (rank line r : ℕ)
    → BoundAt scope name r
    → r < rank
    → Found (check_source dst rank line (scope_lookup scope name))
bound_source scope name dst rank line r b l =
    let t : escapes_rank rank (Binding.rank (BoundAt.binding b)) ≡ true =
      ap (escapes_rank rank) (BoundAt.ranked b) ∙ lt→ltb r rank l in
    rw (BoundAt.looked_up b, t) tt

sources-Lower :
    (dst : Option Bytes) (rank : ℕ) (args : Nodes) (scope : Scope)
    → Found (check_sources dst rank args scope)
    → Lower rank scope args
unfolding check_sources
sources-Lower dst rank nil scope h = absurd h
sources-Lower dst rank (cons arg args) scope h = elim (Bool-cases (has_type arg symbol)) [
  | inl s ↦
      elim (Found-either (check_source dst rank (line_of arg) (scope_lookup scope (text_of arg)))
        (check_sources dst rank args scope) (rw s at h)) [
          | inl k ↦
              let (r, (b, l)) = source_bound scope (text_of arg) dst rank (line_of arg) k in
              here s b l
          | inr k ↦ there (sources-Lower dst rank args scope k)
        ]
  | inr n ↦ there (sources-Lower dst rank args scope (rw n at h))
]

Lower-sources :
    (dst : Option Bytes) (rank : ℕ) (args : Nodes) (scope : Scope)
    → Lower rank scope args
    → Found (check_sources dst rank args scope)
unfolding check_sources
Lower-sources dst rank nil scope l = elim l [ ]
Lower-sources dst rank (cons arg args) scope (here {r} s b l) = rw s (
    either-Found (check_source dst rank (line_of arg) (scope_lookup scope (text_of arg)))
      (check_sources dst rank args scope)
      (inl (bound_source scope (text_of arg) dst rank (line_of arg) r b l)))
Lower-sources dst rank (cons arg args) scope (there l) =
    either-Found
      (if has_type arg symbol
        then check_source dst rank (line_of arg) (scope_lookup scope (text_of arg))
        else none)
      (check_sources dst rank args scope) (inr (Lower-sources dst rank args scope l))

check-IsEscape :
    (fn dest arg : Node) (args : Nodes) (scope : Scope)
    → Found (check_call_escape (cons fn (cons dest (cons arg args))) scope)
    → IsEscape scope dest (cons arg args)
unfolding check_call_escape
check-IsEscape fn dest arg args scope h = elim (Bool-cases (has_type dest symbol)) [
  | inr n ↦ absurd (rw n at h)
  | inl s ↦ elim (Option-cases (scope_lookup scope (text_of dest))) [
    | inl e ↦ absurd (rw (s, e) at h)
    | inr (d, e) ↦ elim (Option-cases d.rank) [
      | inl r ↦ absurd (rw (s, e, r) at h)
      | inr (rank, r) ↦ record {
        named = s;
        rank = rank;
        bound = record { binding = d; looked_up = e; ranked = r };
        lower = sources-Lower d.region_name rank (cons arg args) scope (rw (s, e, r) at h);
      }
    ]
  ]
]

IsEscape-check :
    (fn dest arg : Node) (args : Nodes) (scope : Scope)
    → IsEscape scope dest (cons arg args)
    → Found (check_call_escape (cons fn (cons dest (cons arg args))) scope)
unfolding check_call_escape
IsEscape-check fn dest arg args scope k =
    let b = IsEscape.bound k in
    let d = BoundAt.binding b in
    rw (IsEscape.named k, BoundAt.looked_up b, BoundAt.ranked b)
      (Lower-sources (Binding.region_name d) (IsEscape.rank k) (cons arg args) scope
        (IsEscape.lower k))

no-Lower : {rank : ℕ} {scope : Scope} → Lower rank scope nil → ⊥
no-Lower l = elim l [ ]

-- A call is reported exactly if its destination names a binding with a rank and a later argument
-- names one of a lower rank, however deep in the scopes the two are bound.
pub check_call_escape-IsEscape_iff :
    (fn dest : Node) (args : Nodes) (scope : Scope)
    → Found (check_call_escape (cons fn (cons dest args)) scope) ↔ IsEscape scope dest args
check_call_escape-IsEscape_iff fn dest nil scope =
    (λ h. absurd (unfold check_call_escape in h), λ k. absurd (no-Lower (IsEscape.lower k)))
check_call_escape-IsEscape_iff fn dest (cons arg args) scope =
    (check-IsEscape fn dest arg args scope, IsEscape-check fn dest arg args scope)
