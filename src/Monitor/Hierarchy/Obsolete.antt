-- ===== src/Monitor/Hierarchy/Obsolete.antt =====
-- Obsolete targets, from src/monitor/hierarchy.rs: an update marks them once, and the committed
-- configuration is staged again without them.
pub mod Cleaned
use damon_rs.Common.{
  ℕ, zero, suc, ◌<◌, ◌≤◌, ◌≡◌, ◌≢◌, ◌↔◌, refl, Bool, true, false, not, Option, none, some, List, [],
  ◌∷◌, All, length, any, map, arith, if◌then◌else◌, inl, inr, if_rule, ap, sym, ◌∙◌, subst,
}
use damon_rs.Error.Checks.{Passes, All-map}
use damon_rs.Abi.Operation.{
  Operation, virtual_address, fixed_virtual_address, physical_address, unknown,
}
use damon_rs.Validate.{kernel_index_max}
use damon_rs.Model.Scheme.Valid.{IsValidScheme, IsRunnableScheme}
use damon_rs.Model.Target.{TargetConfig}
use damon_rs.Model.Align.{minimum_region_units}
use damon_rs.Model.Context.{ContextConfig, is_obsolete, retained_count}
use damon_rs.Model.Context.Units.{HasUnits}
use damon_rs.Model.Context.Valid.{IsValidContext, IsAligned, EndsFit}
use damon_rs.Model.Context.Runnable.{IsRunnableContext, HasTargets}
use damon_rs.Model.Damon.{KdamondConfig, DamonConfig, validate_running_update}
use damon_rs.Model.Damon.Valid.{
  IsValidKdamond, IsValidDamon, Fits, RunsOne, IsRunnableDamon,
  validate_runnable_for_lifecycle-IsRunnableDamon,
}

-- `targets.retain(|target| !target.obsolete)`
unfoldable pub retain : List TargetConfig → List TargetConfig
retain [] = []
retain (t ∷ ts) = let rest = retain ts in if t.obsolete then rest else t ∷ rest

unfoldable pub clean_context : ContextConfig → ContextConfig
unfolding retain
clean_context context = record context { targets = retain context.targets }

unfoldable pub clean_kdamond : KdamondConfig → KdamondConfig
unfolding clean_context
clean_kdamond kdamond = record kdamond { contexts = map clean_context kdamond.contexts }

-- `&mut cleaned.kdamonds[index]`, for indexes that are in range.
unfoldable pub clean_at : ℕ → List KdamondConfig → List KdamondConfig
unfolding clean_kdamond
clean_at index [] = []
clean_at zero (k ∷ ks) = clean_kdamond k ∷ ks
clean_at (suc index) (k ∷ ks) = k ∷ clean_at index ks

unfoldable pub clean_each : List ℕ → List KdamondConfig → List KdamondConfig
unfolding clean_at
clean_each [] kdamonds = kdamonds
clean_each (index ∷ selected) kdamonds = clean_each selected (clean_at index kdamonds)

unfoldable pub without_obsolete_targets : DamonConfig → List ℕ → DamonConfig
unfolding clean_each
without_obsolete_targets config selected = record { kdamonds = clean_each selected config.kdamonds }

-- `config.kdamonds[index]` has a context with an obsolete target.
unfoldable pub has_obsolete : KdamondConfig → Bool
has_obsolete kdamond = any (λ (c : ContextConfig). any is_obsolete c.targets) kdamond.contexts

abbrev pub has_obsolete_at : List KdamondConfig → ℕ → Bool
has_obsolete_at [] index = false
has_obsolete_at (k ∷ ks) zero = has_obsolete k
has_obsolete_at (k ∷ ks) (suc index) = has_obsolete_at ks index

unfoldable pub contains_obsolete_targets : DamonConfig → List ℕ → Bool
contains_obsolete_targets config selected = any (has_obsolete_at config.kdamonds) selected
