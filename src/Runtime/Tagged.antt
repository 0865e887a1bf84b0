-- ===== src/Runtime/Tagged.antt =====
-- runtime/parena_runtime.h: `Result` and `Option`, each a tag and a pointer, and `unwrap`.
use parena.Prelude.{ℕ, Bool, true, false, Option, none, some, if◌then◌else◌}

-- The struct of both: `tag` tells Ok or Some, and NULL is 0.
pub record Tagged : Type 0 where
  pub tag : Bool
  pub value : ℕ

unfoldable pub result_ok : ℕ → Tagged
result_ok v = record { tag = true; value = v }

unfoldable pub result_err : ℕ → Tagged
result_err v = record { tag = false; value = v }

unfoldable pub option_some : ℕ → Tagged
option_some v = record { tag = true; value = v }

unfoldable pub option_none : Tagged
option_none = record { tag = false; value = 0 }

-- `none` is the abort.
unfoldable pub result_unwrap_check : Tagged → Option Tagged
result_unwrap_check r = if r.tag then some r else none

unfoldable pub option_unwrap_check : Tagged → Option Tagged
option_unwrap_check o = if o.tag then some o else none
