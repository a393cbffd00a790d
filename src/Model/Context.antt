-- ===== src/Model/Context.antt =====
-- `ContextConfig` of src/sysfs/configuration/model/context.rs. `page` is the host's page size.
pub mod Probes
pub mod Units
pub mod Valid
pub mod Runnable
use damon_rs.Common.{
  ℕ, ◌+◌, ◌*◌, ◌/◌, Bool, true, false, not, ◌&&◌, ◌||◌, Option, none, some, List, [], ◌∷◌, min, max,
  any, all, count_if, is_empty, is_some, is_none, length, ltb, ◌==◌, bool_eq, fit, u8_max, u32_max,
  if◌then◌else◌,
}
use damon_rs.Error.{
  Result, ok, err, ◌>>=◌, ◌>>◌, done, ok_or, invalid, invalid_if, invalid_configuration,
}
use damon_rs.Error.Checks.{each}
use damon_rs.Validate.{validate_count, validate_token}
use damon_rs.Config.Duration.{as_micros}
use damon_rs.Config.AddressUnit.{AddressUnit, one}
use damon_rs.Config.MonitoringIntervals
use damon_rs.Config.MonitoringIntervals.{MonitoringIntervals, sample, aggregation}
use damon_rs.Config.RegionBounds
use damon_rs.Config.RegionBounds.{RegionBounds}
use damon_rs.Abi.Operation.{
  Operation, virtual_address, fixed_virtual_address, physical_address, unknown, kernel_name,
}
use damon_rs.Model.IntervalsGoal
use damon_rs.Model.IntervalsGoal.{IntervalsGoalConfig}
use damon_rs.Model.Probe
use damon_rs.Model.Probe.{ProbeConfig}
use damon_rs.Model.Sample.{
  OperationAttributesConfig, SampleControlConfig, default_attributes, default_control,
  validate_attributes, validate_control,
}
use damon_rs.Model.Scheme
use damon_rs.Model.Scheme.{SchemeConfig, is_virtual}
use damon_rs.Model.Target
use damon_rs.Model.Target.{TargetConfig}
use damon_rs.Model.Align.{
  validate_address_unit_for_host, validate_scaled_initial_regions, minimum_region_units,
  validate_kernel_aligned_initial_regions,
}

pub record ContextConfig : Type 0 where
  pub operation : Operation
  pub address_unit : AddressUnit
  pub paused : Bool
  pub operation_attributes : OperationAttributesConfig
  pub intervals : MonitoringIntervals
  pub intervals_goal : IntervalsGoalConfig
  pub region_bounds : RegionBounds
  pub probes : List ProbeConfig
  pub sample_control : SampleControlConfig
  pub targets : List TargetConfig
  pub schemes : List SchemeConfig

unfoldable pub new : Operation → ContextConfig
new operation = record {
  operation = operation;
  address_unit = one;
  paused = false;
  operation_attributes = default_attributes;
  intervals = MonitoringIntervals.default;
  intervals_goal = IntervalsGoal.default;
  region_bounds = RegionBounds.default;
  probes = [];
  sample_control = default_control;
  targets = [];
  schemes = [];
}

-- The match on the operation in `validate`.
unfoldable pub validate_units : ℕ → Operation → AddressUnit → List TargetConfig → Result (Unit {0})
validate_units page physical_address unit targets = do
  validate_address_unit_for_host page unit
  validate_scaled_initial_regions targets unit
validate_units page (unknown name) unit targets = done
validate_units page _ unit targets =
    invalid_if (not (unit.bytes == 1)) "address unit"
      "only physical-address monitoring supports non-one units"

unfoldable pub validate : ℕ → ContextConfig → Result (Unit {0})
validate page c = do
  validate_token "monitoring operation" (kernel_name c.operation)
  validate_count "target count" (length c.targets)
  validate_count "scheme count" (length c.schemes)
  IntervalsGoal.validate_for c.intervals_goal c.intervals
  validate_attributes c.operation_attributes
  validate_control c.sample_control
  validate_count "monitoring probe count" (length c.probes)
  each Probe.validate c.probes
  each Target.validate c.targets
  validate_units page c.operation c.address_unit c.targets
  validate_kernel_aligned_initial_regions c.targets
      (minimum_region_units page c.operation c.address_unit)
  each (λ s. Scheme.validate_for s (length c.targets)) c.schemes

abbrev pub retained : TargetConfig → Bool
retained target = not target.obsolete

abbrev pub retained_count : List TargetConfig → ℕ
retained_count = count_if retained

-- The loop over the probes, with its `total`, which a `u32` holds.
unfoldable pub sum_hits : ℕ → ℕ → List ProbeConfig → Result ℕ
sum_hits maximum_hits total [] = ok total
sum_hits maximum_hits total (p ∷ ps) = do
  weighted_hits ← ok_or (fit u32_max (p.weight * maximum_hits)) (
      invalid_configuration "weighted monitoring probes"
        "each weight multiplied by maximum hits must fit u32")
  next ← ok_or (fit u32_max (total + weighted_hits)) (
      invalid_configuration "weighted monitoring probes"
        "sum of weighted maximum hits must fit u32")
  sum_hits maximum_hits next ps

unfoldable pub maximum_hits : MonitoringIntervals → ℕ
maximum_hits intervals =
    min (max (as_micros (aggregation intervals) / max (as_micros (sample intervals)) 1) 1) u32_max

-- The rest of `validate_weighted_probes`, when some weight is not zero.
unfoldable pub validate_hits : ℕ → List ProbeConfig → Result (Unit {0})
validate_hits hits probes = do
  invalid_if (ltb u8_max hits) "weighted monitoring probes"
      "samples per aggregation interval must fit an 8-bit hit count"
  hits32 ← ok_or (fit u32_max hits) (
      invalid_configuration "weighted monitoring probes"
        "samples per aggregation interval must fit u32")
  total ← sum_hits hits32 0 probes
  done

unfoldable pub validate_weighted_probes : MonitoringIntervals → List ProbeConfig → Result (Unit {0})
validate_weighted_probes intervals probes =
    if all (λ (p : ProbeConfig). p.weight == 0) probes
    then done
    else validate_hits (maximum_hits intervals) probes

unfoldable pub validate_runnable_sample_control :
    Operation → SampleControlConfig → Result (Unit {0})
validate_runnable_sample_control operation control = do
  invalid_if (bool_eq control.primitives.page_table control.primitives.page_fault)
      "sample primitives" "exactly one of page-table and page-fault sampling must be enabled"
  invalid_if (control.primitives.page_fault && is_virtual operation) "page-fault sampling"
      "is supported only for physical-address monitoring"
  invalid_if (not (is_empty control.filters) && not control.primitives.page_fault) "sample filters"
      "require page-fault sampling to have an effect"

abbrev pub lacks_pid : TargetConfig → Bool
lacks_pid target = retained target && is_none target.pid

abbrev pub lacks_regions : TargetConfig → Bool
lacks_regions target = retained target && is_empty target.initial_regions

-- `targets[0]` after the check of the count
unfoldable pub validate_physical_targets : List TargetConfig → Result (Unit {0})
validate_physical_targets (target ∷ []) = do
  invalid_if (not (retained_count (target ∷ []) == 1)) "physical-address targets"
      "requires exactly one target on current DAMON kernels"
  invalid_if (is_some target.pid) "physical-address target" "must not contain a process identifier"
  invalid_if (is_empty target.initial_regions) "physical-address target regions"
      "requires at least one initial region"
validate_physical_targets targets =
    invalid "physical-address targets" "requires exactly one target on current DAMON kernels"

unfoldable pub validate_targets : Operation → List TargetConfig → Result (Unit {0})
validate_targets virtual_address targets =
    invalid_if (any lacks_pid targets) "virtual-address target" "requires a process identifier"
validate_targets fixed_virtual_address targets = do
  invalid_if (any lacks_pid targets) "fixed virtual-address target" "requires a process identifier"
  invalid_if (any lacks_regions targets) "fixed virtual-address target regions"
      "requires at least one initial region per target"
validate_targets physical_address targets = validate_physical_targets targets
validate_targets (unknown name) targets = done

abbrev pub is_obsolete : TargetConfig → Bool
is_obsolete target = target.obsolete

unfoldable pub validate_runnable_for_lifecycle : ℕ → Bool → ContextConfig → Result (Unit {0})
validate_runnable_for_lifecycle page allow_obsolete_targets c = do
  validate page c
  invalid_if (not allow_obsolete_targets && any is_obsolete c.targets) "obsolete target"
      "is valid only as a one-shot update to a running context"
  invalid_if (retained_count c.targets == 0) "monitoring targets"
      "a running context requires at least one non-obsolete target"
  validate_weighted_probes c.intervals c.probes
  validate_runnable_sample_control c.operation c.sample_control
  validate_targets c.operation c.targets
  each (λ s. Scheme.validate_runnable_for s c.operation (retained_count c.targets)) c.schemes

unfoldable pub validate_runnable : ℕ → ContextConfig → Result (Unit {0})
validate_runnable page c = validate_runnable_for_lifecycle page false c

unfoldable pub validate_running_update : ℕ → ContextConfig → Result (Unit {0})
validate_running_update page c = validate_runnable_for_lifecycle page true c
