-- ===== src/Ts/Context.antt =====
-- src/emit_ts.c: what the emitter knows of names. `params` is the array of locals with all its slots;
-- those below `param_count` are in use, the newest last, and the others are never read.
use parena.Prelude.{
  ℕ, zero, suc, ◌+◌, Bool, List, [], Option, none, some, leb, if◌then◌else◌, Bytes, strcmp_eq, set,
  get_or, replicate,
}
use parena.Region.Scope.{or_else}
use parena.Lua.Names.{find_entry}

-- A name or a function with its type.
abbrev pub Entries : Type 0
Entries = List (Bytes × Bytes)

-- TS_MAX_VARS
abbrev pub ts_max_vars : ℕ
ts_max_vars = 192

pub record TsTypeCtx : Type 0 where
  pub fns : Entries
  pub params : Entries
  pub param_count : ℕ
  pub globals : Entries
  pub tmp : ℕ
  pub ret_void : Bool

abbrev pub lookup_fn_ret_type : TsTypeCtx → Bytes → Option Bytes
lookup_fn_ret_type ctx name = find_entry ctx.fns name

-- The first loop of `lookup_param_type`, from the slot below `i` down.
unfoldable pub lookup_local : Entries → ℕ → Bytes → Option Bytes
lookup_local params zero name = none
lookup_local params (suc i) name =
    let older = lookup_local params i name in
    let entry = get_or params i ([], []) in if strcmp_eq entry.0 name then some entry.1 else older

abbrev pub lookup_param_type : TsTypeCtx → Bytes → Option Bytes
lookup_param_type ctx name =
    or_else (lookup_local ctx.params ctx.param_count name) (find_entry ctx.globals name)

-- `none` is the error of too many locals.
unfoldable pub push_var : TsTypeCtx → Bytes → Bytes → Option TsTypeCtx
push_var ctx name type_name =
    if leb ts_max_vars ctx.param_count
    then none
    else some (record ctx {
      params = set ctx.params ctx.param_count (name, type_name);
      param_count = ctx.param_count + 1;
    })

-- The array as it is allocated.
abbrev pub no_locals_yet : Entries
no_locals_yet = replicate ts_max_vars ([], [])
