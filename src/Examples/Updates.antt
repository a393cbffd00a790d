-- ===== src/Examples/Updates.antt =====
-- Updates of a running hierarchy of one kdamond, with one target of two made obsolete.
use damon_rs.Common.{ℕ, ◌≡◌, ◌≢◌, ◌<◌, ◌↔◌, refl, All, Pairwise, List, [], ◌∷◌, arith, true, false}
use damon_rs.Error.{ok}
use damon_rs.Error.Checks.{Passes}
use damon_rs.Abi.Operation.{virtual_address}
use damon_rs.Model.Target.{TargetConfig, for_pid}
use damon_rs.Model.Context.{ContextConfig}
use damon_rs.Model.Damon.{DamonConfig, validate_running_update}
use damon_rs.Monitor.Hierarchy.Selection.{
  validate_selected_indices, validate_selected_indices-IsSelection,
}
use damon_rs.Monitor.Hierarchy.Obsolete.{without_obsolete_targets, contains_obsolete_targets}
use damon_rs.Monitor.Hierarchy.Obsolete.Cleaned.{without_obsolete_targets-Runs}
use damon_rs.Examples.Data.{page}
use damon_rs.Abi.Action
use damon_rs.Abi.Operation
use damon_rs.Abi.QuotaGoalTuner
use damon_rs.Abi.WatermarkMetric
use damon_rs.Model.Context
use damon_rs.Model.Damon
use damon_rs.Model.IntervalsGoal
use damon_rs.Model.Quota
use damon_rs.Model.Scheme
use damon_rs.Model.Target
use damon_rs.Model.Watermarks
use damon_rs.Config.Duration.{exact_micros, exact_millis, exact_refresh_millis}
use damon_rs.Validate.{
  validate_count, validate_token, is_separator, is_blank, validate_sysfs_string,
}
use damon_rs.Model.Sample.{validate_attributes, validate_control}
use damon_rs.Model.Align.{
  minimum_region_units, validate_aligned_regions, validate_kernel_aligned_initial_regions,
}

abbrev gone : TargetConfig
gone = record (for_pid (record { raw = 7 })) { obsolete = true }

abbrev update : DamonConfig
update = record {
  kdamonds =
      record {
        refresh_interval = 0;
        contexts =
            record (Context.new virtual_address) {
              targets = gone ∷ for_pid (record { raw = 9 }) ∷ [];
            }
            ∷ [];
      }
      ∷ [];
}

update_passes : Passes (validate_running_update page update)
unfolding validate_running_update Context.validate_running_update exact_micros exact_millis
    exact_refresh_millis Damon.validate_kdamond Damon.validate Damon.validate_one_context
    Damon.validate_runnable_for_lifecycle Context.new Context.validate Context.validate_units
    Context.validate_runnable_for_lifecycle Context.validate_runnable
    Context.validate_weighted_probes Context.validate_runnable_sample_control
    Context.validate_targets validate_count validate_token is_separator is_blank
    validate_sysfs_string Operation.kernel_name Action.kernel_name QuotaGoalTuner.kernel_name
    WatermarkMetric.kernel_name IntervalsGoal.validate_for IntervalsGoal.values
    IntervalsGoal.validate_values validate_attributes validate_control Target.validate
    Target.validate_regions minimum_region_units validate_aligned_regions
    validate_kernel_aligned_initial_regions Scheme.validate_for Scheme.validate_runnable_for
    Scheme.known_supported Scheme.supported_virtual Scheme.is_migration Scheme.is_virtual
    Scheme.validate_destinations Scheme.sum_weights Quota.validate Quota.validate_weights
    Quota.validate_reset Watermarks.validate Watermarks.validate_rates
update_passes = refl

without_obsolete_targets-Runs_example :
    Passes (validate_running_update page (without_obsolete_targets update (0 ∷ [])))
    × (contains_obsolete_targets (without_obsolete_targets update (0 ∷ [])) (0 ∷ []) ≡ false)
unfolding Context.new
without_obsolete_targets-Runs_example =
    without_obsolete_targets-Runs page update (0 ∷ []) (omega arith) (ground arith) update_passes

abbrev both : List ℕ
both = 1 ∷ 0 ∷ []

abbrev two : ℕ
two = 2

validate_selected_indices-IsSelection_example :
    (validate_selected_indices both two two ≡ ok both)
    ↔ ((both ≡ both) × (two ≡ two) × All (λ i. i < two) both × Pairwise (λ (i j : ℕ). i ≢ j) both)
validate_selected_indices-IsSelection_example =
    validate_selected_indices-IsSelection both both two two
