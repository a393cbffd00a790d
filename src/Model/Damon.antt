-- ===== src/Model/Damon.antt =====
-- `KdamondConfig` and `DamonConfig` of src/sysfs/configuration/model/hierarchy.rs. `page` is the
-- host's page size.
pub mod Valid
pub mod Equivalent
use damon_rs.Common.{
  ite, ℕ_discrete, String-discrete, ℕ, Bool, true, false, not, List, [], ◌∷◌, is_empty, length,
  ◌==◌, if◌then◌else◌,
}
use damon_rs.Error.{Result, ok, err, ◌>>=◌, ◌>>◌, done, invalid, invalid_if}
use damon_rs.Error.Checks.{each}
use damon_rs.Validate.{validate_count}
use damon_rs.Config.Duration.{Duration, exact_refresh_millis}
use damon_rs.Pattern.{normalize_kernel_width}
use damon_rs.Model.Placement.{canonicalize_filter_placements}
use damon_rs.Model.Scheme.{SchemeConfig}
use damon_rs.Model.Context
use damon_rs.Model.Context.{ContextConfig}

pub record KdamondConfig : Type 0 where
  pub refresh_interval : Duration
  pub contexts : List ContextConfig

pub record DamonConfig : Type 0 where
  pub kdamonds : List KdamondConfig

unfoldable pub validate_kdamond : ℕ → KdamondConfig → Result (Unit {0})
validate_kdamond page k = do
  validate_count "context count" (length k.contexts)
  millis ← exact_refresh_millis k.refresh_interval
  each (Context.validate page) k.contexts

unfoldable pub validate : ℕ → DamonConfig → Result (Unit {0})
validate page config = do
  validate_count "kdamond count" (length config.kdamonds)
  each (validate_kdamond page) config.kdamonds

-- The body of the loop of `validate_runnable_for_lifecycle`: the list pattern is the test
-- `contexts.len() != 1`.
unfoldable pub validate_one_context : ℕ → Bool → List ContextConfig → Result (Unit {0})
validate_one_context page allow_obsolete_targets (c ∷ []) =
    if allow_obsolete_targets
    then Context.validate_running_update page c
    else Context.validate_runnable page c
validate_one_context page allow_obsolete_targets contexts =
    invalid "kdamond context count" "current DAMON requires exactly one context per running kdamond"

unfoldable pub validate_runnable_for_lifecycle : ℕ → Bool → DamonConfig → Result (Unit {0})
validate_runnable_for_lifecycle page allow_obsolete_targets config = do
  validate page config
  invalid_if (is_empty config.kdamonds) "kdamond count" "requires at least one kdamond"
  each (λ (k : KdamondConfig). validate_one_context page allow_obsolete_targets k.contexts)
      config.kdamonds

unfoldable pub validate_runnable : ℕ → DamonConfig → Result (Unit {0})
validate_runnable page config = validate_runnable_for_lifecycle page false config

unfoldable pub validate_running_update : ℕ → DamonConfig → Result (Unit {0})
validate_running_update page config = validate_runnable_for_lifecycle page true config

-- `for (a, b) in xs.iter_mut().zip(ys)`: an element without a partner keeps its value.
abbrev pub zip_mut {ℓ} : {A : Type ℓ} → (A → A → A) → List A → List A → List A
zip_mut f [] ys = []
zip_mut f (x ∷ xs) [] = x ∷ xs
zip_mut f (x ∷ xs) (y ∷ ys) = f x y ∷ zip_mut f xs ys

unfoldable pub normalize_scheme : SchemeConfig → SchemeConfig → SchemeConfig
normalize_scheme scheme observed = record scheme {
  access_pattern = normalize_kernel_width scheme.access_pattern observed.access_pattern;
  filters = canonicalize_filter_placements scheme.filters observed.filters;
}

unfoldable pub normalize_context : ContextConfig → ContextConfig → ContextConfig
normalize_context context observed = record context {
  schemes = zip_mut normalize_scheme context.schemes observed.schemes;
}

unfoldable pub normalize_kdamond : KdamondConfig → KdamondConfig → KdamondConfig
normalize_kdamond kdamond observed = record kdamond {
  contexts = zip_mut normalize_context kdamond.contexts observed.contexts;
}

unfoldable pub normalize : DamonConfig → DamonConfig → DamonConfig
normalize config observed = record config {
  kdamonds = zip_mut normalize_kdamond config.kdamonds observed.kdamonds;
}

-- The derived `==`
pub DamonConfig-discrete : Discrete DamonConfig
DamonConfig-discrete = hlevel (ℕ_discrete, String-discrete)

unfoldable pub equivalent_after_kernel_normalization : DamonConfig → DamonConfig → Bool
equivalent_after_kernel_normalization requested observed =
    ite (DamonConfig-discrete requested observed) true
      (ite (DamonConfig-discrete (normalize requested observed) observed) true false)
