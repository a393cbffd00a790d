-- ===== src/Examples/Parts.antt =====
-- The parts of a context.
use damon_rs.Common.{◌≡◌, ◌⊎◌, none, ◌↔◌, ◌≤◌, [], ◌∷◌, some, All, length, arith}
use damon_rs.Error.Checks.{Passes}
use damon_rs.Validate.{kernel_index_max}
use damon_rs.Abi.Operation.{virtual_address}
use damon_rs.Model.Layer.{FilterLayer, exact_layer}
use damon_rs.Model.Align.{validate_kernel_aligned_initial_regions}
use damon_rs.Model.Align.NoOverlap.{IsSeparated, validate_kernel_aligned-IsSeparated}
use damon_rs.Model.Target
use damon_rs.Model.Target.{TargetConfig}
use damon_rs.Model.Target.Order.{IsOrdered, validate-IsOrdered}
use damon_rs.Model.Scheme
use damon_rs.Model.Scheme.Valid.{
  IsValidScheme, IsRunnableScheme, validate_for-IsValidScheme,
  validate_runnable_for-IsRunnableScheme,
}
use damon_rs.Model.Scheme.Weights.{IsValidDestinations, validate_destinations-IsValidDestinations}
use damon_rs.Model.Filter
use damon_rs.Model.Filter.Valid.{IsValidFilter, validate_for-IsValidFilter}
use damon_rs.Model.Quota
use damon_rs.Model.Quota.Valid.{IsValidQuota, validate-IsValidQuota}
use damon_rs.Examples.Data.{regions, process_target, target_filter, scheme, destinations, quota}

aligned_example :
    Passes (validate_kernel_aligned_initial_regions (process_target ∷ []) (some 4096))
    ↔ All (λ (t : TargetConfig). IsSeparated 4096 t.initial_regions) (process_target ∷ [])
aligned_example =
    validate_kernel_aligned-IsSeparated 4096 (process_target ∷ []) (omega arith) (ground arith)

ordered_example :
    Passes (Target.validate process_target)
    ↔ ((length regions ≤ kernel_index_max) × IsOrdered regions)
ordered_example = validate-IsOrdered process_target

scheme_example : Passes (Scheme.validate_for scheme 1) ↔ IsValidScheme scheme 1
scheme_example = validate_for-IsValidScheme scheme 1

scheme_runnable_example :
    Passes (Scheme.validate_runnable_for scheme virtual_address 1)
    ↔ IsRunnableScheme scheme virtual_address 1
scheme_runnable_example = validate_runnable_for-IsRunnableScheme scheme virtual_address 1

destinations_example :
    Passes (Scheme.validate_destinations destinations) ↔ IsValidDestinations destinations
destinations_example = validate_destinations-IsValidDestinations destinations

filter_example : Passes (Filter.validate_for target_filter FilterLayer.core 1) ↔ (
    ((exact_layer target_filter.placement ≡ none)
      ⊎ (exact_layer target_filter.placement ≡ some FilterLayer.core))
    × IsValidFilter target_filter FilterLayer.core 1)
filter_example = validate_for-IsValidFilter target_filter FilterLayer.core 1

quota_example : Passes (Quota.validate quota) ↔ IsValidQuota quota
quota_example = validate-IsValidQuota quota
