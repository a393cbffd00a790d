-- ===== src/Examples/Workflow.antt =====
-- A workflow on two processes, and the errors of its staging.
use damon_rs.Common.{
  ℕ, ◌≡◌, ◌<◌, ◌⊎◌, refl, true, some, List, [], ◌∷◌, arith, inl, map, length, get_elem?, All,
}
use damon_rs.Error.{Error, ok, rollback, io, other, unsupported_operation}
use damon_rs.Error.Checks.{Passes}
use damon_rs.Config.AddressUnit.{one}
use damon_rs.Config.Pid.{Pid}
use damon_rs.Abi.Operation.{virtual_address}
use damon_rs.Config.MonitoringIntervals
use damon_rs.Config.Duration.{
  Duration, zero_duration, exact_micros, exact_millis, exact_refresh_millis, duration_micros,
}
use damon_rs.Config.RegionBounds
use damon_rs.Model.Damon
use damon_rs.Model.Damon.{validate_runnable}
use damon_rs.Model.Context
use damon_rs.Validate.{
  validate_count, validate_token, is_separator, is_blank, validate_sysfs_string,
}
use damon_rs.Abi.Operation
use damon_rs.Abi.Action
use damon_rs.Abi.QuotaGoalTuner
use damon_rs.Abi.WatermarkMetric
use damon_rs.Model.IntervalsGoal
use damon_rs.Model.Sample.{validate_attributes, validate_control}
use damon_rs.Model.Target
use damon_rs.Model.Align.{
  minimum_region_units, validate_aligned_regions, validate_kernel_aligned_initial_regions,
}
use damon_rs.Model.Scheme
use damon_rs.Model.Quota
use damon_rs.Model.Watermarks
use damon_rs.Examples.Data.{page, config, context}
use damon_rs.Monitor.Workflow.Query.{
  SnapshotDescriptor, kdamond_schemes, snapshot_query_configuration,
  maximum_effective_apply_interval,
}
use damon_rs.Monitor.Workflow.Failures.{
  root, restorations, IsRefused, classify_operation_staging_error, classify-IsRefused,
}
use damon_rs.Monitor.Workflow.Longest.{
  AllSchemes, SomeScheme, Within, Attains, maximum_effective_apply_interval-IsLongest,
}
use damon_rs.Monitor.Workflow.Descriptors.{Finds, scopes, snapshot_query-Finds}
use damon_rs.Monitor.Workflow.Snapshots.{prepare_workflow-Runs}
use damon_rs.Monitor.Workflow.{
  PreparedWorkflow, ProcessTarget, TargetIdentity, new_options, process_target, prepare_workflow,
  workflow_context, workflow_identities, workflow_targets, add_schemes, snapshot_query_scheme,
  one_context,
}

abbrev seven : Pid
seven = record { raw = 7 }

abbrev nine : Pid
nine = record { raw = 9 }

abbrev two_processes : List ProcessTarget
two_processes = process_target seven ∷ process_target nine ∷ []

prepares :
    (p : PreparedWorkflow) × (prepare_workflow page new_options virtual_address two_processes one
      ≡ ok p)
unfolding prepare_workflow new_options process_target add_schemes snapshot_query_scheme
    workflow_context workflow_targets MonitoringIntervals.new exact_micros exact_millis
    exact_refresh_millis duration_micros RegionBounds.new Damon.validate_kdamond Damon.validate
    Damon.validate_one_context Damon.validate_runnable_for_lifecycle Damon.validate_runnable
    Context.new Context.validate Context.validate_units Context.validate_runnable_for_lifecycle
    Context.validate_runnable Context.validate_weighted_probes
    Context.validate_runnable_sample_control Context.validate_targets validate_count validate_token
    is_separator is_blank validate_sysfs_string Operation.kernel_name Action.kernel_name
    QuotaGoalTuner.kernel_name WatermarkMetric.kernel_name IntervalsGoal.validate_for
    IntervalsGoal.values IntervalsGoal.validate_values validate_attributes validate_control
    Target.validate Target.validate_regions minimum_region_units validate_aligned_regions
    validate_kernel_aligned_initial_regions Scheme.validate_for Scheme.validate_runnable_for
    Scheme.known_supported Scheme.supported_virtual Scheme.is_migration Scheme.is_virtual
    Scheme.validate_destinations Scheme.sum_weights Scheme.new Quota.validate Quota.validate_weights
    Quota.validate_reset Watermarks.validate Watermarks.validate_rates
prepares = (_, refl)

prepare_workflow-Runs_example : Passes (
    validate_runnable page
      (snapshot_query_configuration prepares.0.base_config prepares.0.target_identities
        prepares.0.sample_interval true).0)
unfolding workflow_targets workflow_identities prepares
prepare_workflow-Runs_example =
    prepare_workflow-Runs page new_options virtual_address two_processes one prepares.0
      prepares.0.sample_interval true (omega arith) (tt, (tt, tt)) prepares.1 (inl refl)
      (λ e. omega arith)

abbrev identities : List TargetIdentity
identities =
    record { target_index = 0; pid = some seven }
    ∷ record { target_index = 1; pid = some nine }
    ∷ []

snapshot_query-Finds_example :
    let (config, descriptors) =
      snapshot_query_configuration (one_context zero_duration context) identities 5000000 true in
    All (Finds identities 5000000 (kdamond_schemes config.kdamonds)) descriptors
    × (map (λ (d : SnapshotDescriptor). d.scope) descriptors ≡ scopes identities true)
    × ((k : ℕ)
        → k < length context.schemes
        → get_elem? (kdamond_schemes config.kdamonds) k ≡ get_elem? context.schemes k)
snapshot_query-Finds_example = snapshot_query-Finds zero_duration context identities 5000000 true

abbrev config_longest : Duration
config_longest = maximum_effective_apply_interval config

maximum_effective_apply_interval-IsLongest_example :
    AllSchemes (Within config_longest) config
    × ((config_longest ≡ 0) ⊎ SomeScheme (Attains config_longest) config)
maximum_effective_apply_interval-IsLongest_example =
    maximum_effective_apply_interval-IsLongest config

-- The kernel refuses the operation, and the restoration fails as well.
abbrev refused : Error
refused =
    rollback (io "write" "/sys/kernel/mm/damon/admin/kdamonds/0/contexts/0/operations" (other 22))
      (io "write" "/sys/kernel/mm/damon/admin/kdamonds/nr_kdamonds" (other 5))

classify-IsRefused_example :
    (IsRefused (root refused)
      → root (classify_operation_staging_error refused virtual_address)
        ≡ unsupported_operation virtual_address)
    × (¬ IsRefused (root refused)
        → classify_operation_staging_error refused virtual_address ≡ refused)
    × (restorations (classify_operation_staging_error refused virtual_address)
        ≡ restorations refused)
classify-IsRefused_example = classify-IsRefused refused virtual_address
