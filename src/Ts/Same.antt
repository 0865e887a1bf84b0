-- ===== src/Ts/Same.antt =====
-- src/emit_ts.c: what a statement or a binding leaves of what the emitter knows, through the ways in
-- which the results are put together.
use mathlib.Core.Path.{subst}
use parena.Prelude.{
  ℕ, ◌+◌, ◌≤◌, ◌≡◌, refl, sym, ap, ◌∙◌, arith, List, Bytes, length, take, take-take,
}
use parena.Ts.Context.{Entries, TsTypeCtx, ts_max_vars}
use parena.Ts.Text.{TsError, TsOut, typed, wrong}
use parena.Ts.Dest.{StmtOut, done, stopped, and_done, with_value, BindOut, bound, unbound}
use parena.Ts.Stmt.{with_bound, block}

-- The functions, the module's variables and the kind of the function are the same.
pub record SameFile (a b : TsTypeCtx) : Type 0 where
  pub fns : a.fns ≡ b.fns
  pub globals : a.globals ≡ b.globals
  pub ret_void : a.ret_void ≡ b.ret_void

-- So are the locals in use, slot by slot: only the count of temporaries may differ.
pub record Same (a b : TsTypeCtx) : Type 0 where
  pub file : SameFile a b
  pub counts : a.param_count ≡ b.param_count
  pub locals : take a.param_count a.params ≡ take a.param_count b.params

-- What a statement leaves, if it comes out.
pub data Restores (ctx : TsTypeCtx) : StmtOut → Type 0 where
  restored : {x : Bytes} {ctx' : TsTypeCtx} → Same ctx ctx' → Restores ctx (done x ctx')
  no_lines : {e : TsError} → Restores ctx (stopped e)

-- The locals in use are where they were, and others may be in use behind them.
pub record Grows (a b : TsTypeCtx) : Type 0 where
  pub file : SameFile a b
  pub more : a.param_count ≤ b.param_count
  pub locals : take a.param_count a.params ≡ take a.param_count b.params

-- New locals stand behind the old ones, one for each identifier, and all of them are in the array.
pub data Extends (ctx : TsTypeCtx) : BindOut → Type 0 where
  extended :
      {x : Bytes} {ctx' : TsTypeCtx} {ids : List Bytes}
      → Grows ctx ctx'
      → (ctx.param_count ≤ ts_max_vars → ctx'.param_count ≤ ts_max_vars)
      → ctx'.param_count ≡ length ids + ctx.param_count
      → Extends ctx (bound x ctx' ids)
  no_locals : {e : TsError} → Extends ctx (unbound e)

pub same_file : (a : TsTypeCtx) → SameFile a a
same_file a = record { fns = refl; globals = refl; ret_void = refl }

pub same : (a : TsTypeCtx) → Same a a
same a = record { file = same_file a; counts = refl; locals = refl }

pub grows : (a : TsTypeCtx) → Grows a a
grows a = record { file = same_file a; more = omega arith; locals = refl }

pub file_trans : {a b c : TsTypeCtx} → SameFile a b → SameFile b c → SameFile a c
file_trans p q = record {
  fns = p.fns ∙ q.fns;
  globals = p.globals ∙ q.globals;
  ret_void = p.ret_void ∙ q.ret_void;
}

pub Same-trans : {a b c : TsTypeCtx} → Same a b → Same b c → Same a c
Same-trans {b} {c} p q = record {
  file = file_trans p.file q.file;
  counts = p.counts ∙ q.counts;
  locals = p.locals ∙ subst (λ n. take n b.params ≡ take n c.params) (sym p.counts) q.locals;
}

-- What is the same below `n` is the same below `k`.
take_below : (k n : ℕ) (xs ys : Entries) → k ≤ n → take n xs ≡ take n ys → take k xs ≡ take k ys
take_below k n xs ys l e = sym (take-take k n xs l) ∙ ap (λ zs. take k zs) e ∙ take-take k n ys l

pub Grows-trans : {a b c : TsTypeCtx} → Grows a b → Grows b c → Grows a c
Grows-trans {a} {b} {c} p q = record {
  file = file_trans p.file q.file;
  more = omega (arith, p.more, q.more);
  locals = p.locals ∙ take_below a.param_count b.param_count b.params c.params p.more q.locals;
}

pub after : {a b : TsTypeCtx} (o : StmtOut) → Same a b → Restores b o → Restores a o
after (done x c) p (restored h) = restored (Same-trans p h)
after (stopped e) p h = no_lines

module _ {ctx : TsTypeCtx} where
  pub with_value-Restores :
      (o : TsOut) (f : Bytes → Bytes → StmtOut)
      → ((x t : Bytes) → Restores ctx (f x t))
      → Restores ctx (with_value o f)
  with_value-Restores (typed x t) f h = h x t
  with_value-Restores (wrong e) f h = no_lines

  pub and_done-Restores :
      (m : StmtOut) (f : Bytes → TsTypeCtx → StmtOut)
      → Restores ctx m
      → ((x : Bytes) (ctx' : TsTypeCtx) → Same ctx ctx' → Restores ctx (f x ctx'))
      → Restores ctx (and_done m f)
  and_done-Restores (done x c) f (restored p) h = h x c p
  and_done-Restores (stopped e) f p h = no_lines

  -- The text around a statement does not matter.
  pub texted :
      (m : StmtOut) (f : Bytes → TsTypeCtx → Bytes)
      → Restores ctx m
      → Restores ctx (and_done m (λ x c. done (f x c) c))
  texted m f p = and_done-Restores m (λ x c. done (f x c) c) p (λ x c q. restored q)

  pub block-Restores :
      (depth : ℕ) (x : Bytes) {ctx' : TsTypeCtx} (body : StmtOut)
      → Grows ctx ctx'
      → Restores ctx' body
      → Restores ctx (block depth ctx x body)
  block-Restores depth x {ctx'} (done y c) p (restored h) =
      let f = file_trans p.file h.file in
      restored (record {
        file = record { fns = f.fns; globals = f.globals; ret_void = f.ret_void };
        counts = refl;
        locals =
            p.locals
            ∙ take_below ctx.param_count ctx'.param_count ctx'.params c.params p.more h.locals;
      })
  block-Restores depth x (stopped e) p h = no_lines

  pub with_bound-Restores :
      (b : BindOut) (f : Bytes → TsTypeCtx → List Bytes → StmtOut)
      → Extends ctx b
      → ((x : Bytes) (ctx' : TsTypeCtx) (ids : List Bytes)
          → Grows ctx ctx'
          → Restores ctx (f x ctx' ids))
      → Restores ctx (with_bound b f)
  with_bound-Restores (bound x c ids) f (extended p b n) h = h x c ids p
  with_bound-Restores (unbound e) f p h = no_lines
