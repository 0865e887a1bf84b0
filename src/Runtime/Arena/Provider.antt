-- ===== src/Runtime/Arena/Provider.antt =====
-- runtime/parena_runtime.h: what `parena_set_block_provider` installs, as operations and the laws
-- that the arena relies on.
use parena.Prelude.{
  ℕ, ◌*◌, ◌^◌, ◌<◌, ◌≡◌, Option, some, ◌∙◌, ap, sym, List, Bool, arith, refl, ◌-◌, set, get_or,
  false,
}
use parena.Runtime.Pool.{Pool, static_alloc, static_free, set_range, block_bytes}
use parena.Runtime.Pool.Accounts.{IsAccounted, static_alloc-IsAccounted, static_free-static_alloc}

-- Requests below this leave room for the rounding of any provider.
abbrev pub request_limit : ℕ
request_limit = 2 ^ 63

-- `View` is what a release restores of the provider's state.
pub record Provider : Type 1 where
  pub State : Type 0
  pub View : Type 0
  pub view : State → View
  pub Good : State → Type 0
  pub grant : State → ℕ → Option (ℕ × State)
  pub release : State → ℕ → State
  pub grant-Good :
      (s : State) (n a : ℕ) (t : State)
      → n < request_limit
      → Good s
      → grant s n ≡ some (a, t)
      → Good t
  pub release-grant :
      (s : State) (n a : ℕ) (t u : State)
      → n < request_limit
      → Good s
      → grant s n ≡ some (a, t)
      → view u ≡ view t
      → view (release u a) ≡ view s

-- The static pool without its high-water mark.
pub record PoolView : Type 0 where
  pub used : List Bool
  pub run : List ℕ
  pub in_use : ℕ

abbrev pub pool_view : Pool → PoolView
pool_view p = record { used = p.used; run = p.run; in_use = p.in_use }

-- A release reads nothing but the view.
abbrev pub freed_view : PoolView → ℕ → PoolView
freed_view v first =
    let n = get_or v.run first 0 in
    record {
      used = set_range v.used first n false;
      run = set v.run first 0;
      in_use = v.in_use - n * block_bytes;
    }

free_view :
    (p : Pool) (first : ℕ) → pool_view (static_free p first) ≡ freed_view (pool_view p) first
unfolding static_free
free_view p first = refl

pub pool_release :
    (s : Pool) (n a : ℕ) (t u : Pool)
    → n < request_limit
    → IsAccounted s
    → static_alloc s n ≡ some (a, t)
    → pool_view u ≡ pool_view t
    → pool_view (static_free u a) ≡ pool_view s
pool_release s n a t u h v e same =
    free_view u a
    ∙ ap (λ w. freed_view w a) same
    ∙ sym (free_view t a)
    ∙ ap pool_view (static_free-static_alloc s n (omega arith) v e)

pub pool_grant-Good :
    (s : Pool) (n a : ℕ) (t : Pool)
    → n < request_limit
    → IsAccounted s
    → static_alloc s n ≡ some (a, t)
    → IsAccounted t
pool_grant-Good s n a t h v e = static_alloc-IsAccounted s n (omega arith) v e

-- The static pool is a provider.
abbrev pub pool_provider : Provider
pool_provider = record {
  State = Pool;
  View = PoolView;
  view = pool_view;
  Good = IsAccounted;
  grant = static_alloc;
  release = static_free;
  grant-Good = pool_grant-Good;
  release-grant = pool_release;
}
