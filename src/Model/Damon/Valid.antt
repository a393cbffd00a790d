-- ===== src/Model/Damon/Valid.antt =====
-- What the hierarchy's validations accept.
use damon_rs.Common.{
  ℕ, ◌<◌, ◌≤◌, ◌≡◌, ◌≢◌, subst, ◌↔◌, refl, Bool, List, [], ◌∷◌, All, arith, length, u32_max,
}
use damon_rs.Error.Checks.{Passes, each_iff_on, >>-Passes, >>=-ok}
use damon_rs.Validate.{validate_count, kernel_index_max}
use damon_rs.Validate.Text.{validate_count-le}
use damon_rs.Config.Duration.{IsExact, exact_refresh_millis, exact_refresh_millis-IsExact}
use damon_rs.Model.Context
use damon_rs.Model.Context.{ContextConfig}
use damon_rs.Model.Context.Valid.{EndsFit, IsValidContext, validate-IsValidContext as context_iff}
use damon_rs.Model.Context.Runnable.{
  IsRunnableContext, validate_runnable_for_lifecycle-IsRunnableContext as run_iff,
}
use damon_rs.Model.Damon.{
  KdamondConfig, DamonConfig, validate_kdamond, validate, validate_one_context,
  validate_runnable_for_lifecycle,
}

-- The refresh interval is whole milliseconds that fit the kernel's unsigned int.
pub record IsValidKdamond (page : ℕ) (k : KdamondConfig) : Type 0 where
  pub count : length k.contexts ≤ kernel_index_max
  pub refresh : (n : ℕ) × IsExact 1000000 u32_max k.refresh_interval n
  pub contexts : All (IsValidContext page) k.contexts

pub record IsValidDamon (page : ℕ) (config : DamonConfig) : Type 0 where
  pub count : length config.kdamonds ≤ kernel_index_max
  pub kdamonds : All (IsValidKdamond page) config.kdamonds

-- The ends of all regions are `u64` values.
abbrev pub Fits : KdamondConfig → Type 0
Fits k = All (λ (c : ContextConfig). EndsFit c.targets) k.contexts

kdamond_iff :
    (page : ℕ)
    → 0 < page
    → (k : KdamondConfig) → Fits k
    → Passes (validate_kdamond page k) ↔ IsValidKdamond page k
unfolding validate_kdamond
kdamond_iff page pos k fits =
    let count = validate_count-le "context count" (length k.contexts) in
    let refresh = exact_refresh_millis-IsExact k.refresh_interval in
    let contexts = each_iff_on (λ c. context_iff page c pos) k.contexts fits in
    (
      λ h.
          let both = >>-Passes (validate_count "context count" (length k.contexts)) _ in
          let (n, e, rest) = >>=-ok (exact_refresh_millis k.refresh_interval) _ (both.0 h).1 in
          record {
            count = count.0 (both.0 h).0;
            refresh = (n, (refresh n).0 e);
            contexts = contexts.0 rest;
          },
      λ v.
          ground
            (arith, count.1 v.count, (refresh v.refresh.0).1 v.refresh.1, contexts.1 v.contexts),
    )

-- For a positive page size and regions whose ends fit u64, the validation accepts exactly the
-- hierarchies with at most i32::MAX kdamonds, each with at most i32::MAX contexts, a refresh
-- interval of whole milliseconds that fit u32, and valid contexts.
pub validate-IsValidDamon :
    (page : ℕ) (config : DamonConfig)
    → 0 < page
    → All Fits config.kdamonds
    → Passes (validate page config) ↔ IsValidDamon page config
unfolding validate
validate-IsValidDamon page config pos fits =
    let count = validate_count-le "kdamond count" (length config.kdamonds) in
    let kdamonds = each_iff_on (kdamond_iff page pos) config.kdamonds fits in
    (
      λ h. record { count = count.0 (ground arith); kdamonds = kdamonds.0 (ground arith) },
      λ v. ground (arith, count.1 v.count, kdamonds.1 v.kdamonds),
    )

-- One context, which can run.
abbrev pub RunsOne : ℕ → Bool → KdamondConfig → Type 0
RunsOne page allow k = (c : ContextConfig) × (k.contexts ≡ c ∷ []) × IsRunnableContext page allow c

pub record IsRunnableDamon (page : ℕ) (allow_obsolete : Bool) (config : DamonConfig) : Type 0 where
  pub valid : IsValidDamon page config
  pub some_kdamond : config.kdamonds ≢ []
  pub kdamonds : All (RunsOne page allow_obsolete) config.kdamonds

contexts_iff :
    (page : ℕ) (allow : Bool)
    → 0 < page
    → (cs : List ContextConfig) → All (λ (c : ContextConfig). EndsFit c.targets) cs
    → Passes (validate_one_context page allow cs)
      ↔ ((c : ContextConfig) × (cs ≡ c ∷ []) × IsRunnableContext page allow c)
unfolding validate_one_context Context.validate_runnable Context.validate_running_update
contexts_iff page allow pos [] fits = (λ h. ground arith, λ v. ground (arith, v.1))
contexts_iff page allow pos (c ∷ []) fits =
    let run = run_iff page allow c pos fits.0 in
    (
      λ h. (c, refl, run.0 (ground arith)),
      λ v.
          let same : v.0 ≡ c = ground (arith, v.1) in
          ground (arith, run.1 (subst (IsRunnableContext page allow) same v.2)),
    )
contexts_iff page allow pos (c ∷ d ∷ cs) fits = (λ h. ground arith, λ v. ground (arith, v.1))

-- For a positive page size and regions whose ends fit u64, the check before a run, with or
-- without obsolete targets allowed, accepts exactly the valid hierarchies with at least one
-- kdamond, each of which has one context, one that can run.
pub validate_runnable_for_lifecycle-IsRunnableDamon :
    (page : ℕ) (allow : Bool) (config : DamonConfig)
    → 0 < page
    → All Fits config.kdamonds
    → Passes (validate_runnable_for_lifecycle page allow config) ↔ IsRunnableDamon page allow config
unfolding validate_runnable_for_lifecycle
validate_runnable_for_lifecycle-IsRunnableDamon page allow config pos fits =
    let valid = validate-IsValidDamon page config pos fits in
    let kdamonds =
      each_iff_on (λ (k : KdamondConfig). contexts_iff page allow pos k.contexts) config.kdamonds
        fits in
    (
      λ h. record {
        valid = valid.0 (ground arith);
        some_kdamond = ground arith;
        kdamonds = kdamonds.0 (ground arith);
      },
      λ v. ground (arith, valid.1 v.valid, v.some_kdamond, kdamonds.1 v.kdamonds),
    )
