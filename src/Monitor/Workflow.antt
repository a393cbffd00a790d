-- ===== src/Monitor/Workflow.antt =====
-- src/monitor/workflow.rs: the options and targets that the session builders collect, the
-- configurations that a workflow stages, and the snapshot queries it adds. `page` is the host's page
-- size.
pub mod Prepared
pub mod Query
pub mod Failures
pub mod Longest
pub mod Queries
pub mod Snapshots
pub mod Descriptors
use damon_rs.Common.{
  ℕ, suc, ◌+◌, Bool, true, false, Option, none, some, unwrap_or, List, [], ◌∷◌, ◌++◌, map, max,
  length, is_empty, ◌==◌, if◌then◌else◌, u32_max, u64_max, codes, String,
}
use damon_rs.Error.{
  Error, Result, ok, err, ◌>>=◌, ◌>>◌, IoErrorKind, other, io, rollback, unsupported_operation,
  invalid_if,
}
use damon_rs.Config.Duration.{Duration, zero_duration}
use damon_rs.Config.AddressUnit.{AddressUnit, one}
use damon_rs.Config.Pid.{Pid}
use damon_rs.Config.MonitoringIntervals
use damon_rs.Config.MonitoringIntervals.{MonitoringIntervals}
use damon_rs.Config.RegionBounds
use damon_rs.Config.RegionBounds.{RegionBounds}
use damon_rs.Abi.Action.{stat}
use damon_rs.Abi.Operation.{Operation, virtual_address, fixed_virtual_address, physical_address}
use damon_rs.Pattern.{AccessPattern}
use damon_rs.Model.Region.{InitialRegionConfig}
use damon_rs.Model.Target.{TargetConfig, for_pid, address_space}
use damon_rs.Model.Probe.{ProbeConfig}
use damon_rs.Model.Filter.{target_filter}
use damon_rs.Model.Scheme
use damon_rs.Model.Scheme.{SchemeConfig}
use damon_rs.Model.Context
use damon_rs.Model.Context.{ContextConfig}
use damon_rs.Model.Damon.{KdamondConfig, DamonConfig, validate_runnable}
use damon_rs.Monitor.Persistent.Texts.{components, Component, normal}
use damon_rs.Sysfs.Paths.{name_eq}

pub record WorkflowOptions : Type 0 where
  pub sample : Duration
  pub aggregation : Duration
  pub update : Duration
  pub refresh : Duration
  pub min_regions : ℕ
  pub max_regions : ℕ
  pub initial_regions : List InitialRegionConfig
  pub probes : List ProbeConfig
  pub schemes : List SchemeConfig

unfoldable pub new_options : WorkflowOptions
new_options = record {
  sample = MonitoringIntervals.sample MonitoringIntervals.default;
  aggregation = MonitoringIntervals.aggregation MonitoringIntervals.default;
  update = MonitoringIntervals.update MonitoringIntervals.default;
  refresh = zero_duration;
  min_regions = RegionBounds.default.min;
  max_regions = RegionBounds.default.max;
  initial_regions = [];
  probes = [];
  schemes = [];
}

-- The builders' methods that replace or add to one option.
unfoldable pub intervals : MonitoringIntervals → WorkflowOptions → WorkflowOptions
intervals i self = record self {
  sample = MonitoringIntervals.sample i;
  aggregation = MonitoringIntervals.aggregation i;
  update = MonitoringIntervals.update i;
}

unfoldable pub sample_interval : Duration → WorkflowOptions → WorkflowOptions
sample_interval interval self = record self { sample = interval }

unfoldable pub aggregation_interval : Duration → WorkflowOptions → WorkflowOptions
aggregation_interval interval self = record self { aggregation = interval }

unfoldable pub operations_update_interval : Duration → WorkflowOptions → WorkflowOptions
operations_update_interval interval self = record self { update = interval }

unfoldable pub result_refresh_interval : Duration → WorkflowOptions → WorkflowOptions
result_refresh_interval interval self = record self { refresh = interval }

unfoldable pub region_bounds : ℕ → ℕ → WorkflowOptions → WorkflowOptions
region_bounds min max self = record self { min_regions = min; max_regions = max }

unfoldable pub regions : List InitialRegionConfig → WorkflowOptions → WorkflowOptions
regions rs self = record self { initial_regions = rs }

unfoldable pub probes : List ProbeConfig → WorkflowOptions → WorkflowOptions
probes ps self = record self { probes = ps }

unfoldable pub schemes : List SchemeConfig → WorkflowOptions → WorkflowOptions
schemes ss self = record self { schemes = ss }

unfoldable pub scheme : SchemeConfig → WorkflowOptions → WorkflowOptions
scheme s self = record self { schemes = self.schemes ++ s ∷ [] }

unfoldable pub probe : ProbeConfig → WorkflowOptions → WorkflowOptions
probe p self = record self { probes = self.probes ++ p ∷ [] }

pub record ProcessTarget : Type 0 where
  pub pid : Pid
  pub initial_regions : Option (List InitialRegionConfig)

unfoldable pub process_target : Pid → ProcessTarget
process_target pid = record { pid = pid; initial_regions = none }

unfoldable pub region : InitialRegionConfig → ProcessTarget → ProcessTarget
region r self = record self { initial_regions = some (unwrap_or self.initial_regions [] ++ r ∷ []) }

pub record TargetIdentity : Type 0 where
  pub target_index : ℕ
  pub pid : Option Pid

pub data SnapshotScope : Type 0 where
  target : TargetIdentity → SnapshotScope
  scheme_scope ungrouped : SnapshotScope

pub record PreparedWorkflow : Type 0 where
  pub base_config : DamonConfig
  pub capability_config : DamonConfig
  pub snapshot_scheme_index : ℕ
  pub target_identities : List TargetIdentity
  pub custom_scheme_count : ℕ
  pub capacity_hint : ℕ
  pub sample_interval : Duration
  pub refresh_interval : Duration

-- The loop over the process targets.
unfoldable pub process_targets_of :
    List InitialRegionConfig → List ProcessTarget → List TargetConfig
process_targets_of common [] = []
process_targets_of common (t ∷ ts) =
    record (for_pid t.pid) { initial_regions = unwrap_or t.initial_regions common }
    ∷ process_targets_of common ts

unfoldable pub identities_from : ℕ → List ProcessTarget → List TargetIdentity
identities_from i [] = []
identities_from i (t ∷ ts) =
    record { target_index = i; pid = some t.pid } ∷ identities_from (suc i) ts

unfoldable pub workflow_targets : WorkflowOptions → List ProcessTarget → List TargetConfig
unfolding process_targets_of
workflow_targets options [] =
    record address_space { initial_regions = options.initial_regions } ∷ []
workflow_targets options (t ∷ ts) = process_targets_of options.initial_regions (t ∷ ts)

unfoldable pub workflow_identities : List ProcessTarget → List TargetIdentity
unfolding identities_from
workflow_identities [] = record { target_index = 0; pid = none } ∷ []
workflow_identities (t ∷ ts) = identities_from 0 (t ∷ ts)

unfoldable pub snapshot_query_scheme : Duration → SchemeConfig
unfolding Scheme.new
snapshot_query_scheme apply_interval =
    record (Scheme.new stat (record {
      size = record { min = 0; max = u64_max };
      accesses = record { min = 0; max = u32_max };
      age = record { min = 0; max = u32_max };
    })) { apply_interval = apply_interval }

-- `config.kdamonds[0].contexts[0].schemes` with more schemes at its end.
abbrev pub add_to_context : List SchemeConfig → List ContextConfig → List ContextConfig
add_to_context more [] = []
add_to_context more (c ∷ cs) = record c { schemes = c.schemes ++ more } ∷ cs

abbrev pub add_to_kdamond : List SchemeConfig → List KdamondConfig → List KdamondConfig
add_to_kdamond more [] = []
add_to_kdamond more (k ∷ ks) = record k { contexts = add_to_context more k.contexts } ∷ ks

unfoldable pub add_schemes : List SchemeConfig → DamonConfig → DamonConfig
add_schemes more config = record config { kdamonds = add_to_kdamond more config.kdamonds }

unfoldable pub workflow_context :
    WorkflowOptions
    → Operation
    → List ProcessTarget
    → AddressUnit
    → MonitoringIntervals
    → RegionBounds
    → ContextConfig
unfolding Context.new workflow_targets
workflow_context options operation targets unit intervals bounds = record (Context.new operation) {
  address_unit = unit;
  intervals = intervals;
  region_bounds = bounds;
  probes = options.probes;
  targets = workflow_targets options targets;
  schemes = options.schemes;
}

abbrev pub one_context : Duration → ContextConfig → DamonConfig
one_context refresh c = record {
  kdamonds = record { refresh_interval = refresh; contexts = c ∷ [] } ∷ [];
}

unfoldable pub prepare_workflow :
    ℕ → WorkflowOptions → Operation → List ProcessTarget → AddressUnit → Result PreparedWorkflow
unfolding workflow_context workflow_identities add_schemes snapshot_query_scheme
prepare_workflow page options operation targets unit = do
  intervals ← MonitoringIntervals.new options.sample options.aggregation options.update
  bounds ← RegionBounds.new options.min_regions options.max_regions
  let context = workflow_context options operation targets unit intervals bounds
  let base_config = one_context options.refresh context
  validate_runnable page base_config
  let capability_config = add_schemes (snapshot_query_scheme zero_duration ∷ []) base_config
  validate_runnable page capability_config
  ok (record {
    base_config = base_config;
    capability_config = capability_config;
    snapshot_scheme_index = length options.schemes;
    target_identities = workflow_identities targets;
    custom_scheme_count = length options.schemes;
    capacity_hint = bounds.max;
    sample_interval = MonitoringIntervals.sample intervals;
    refresh_interval = options.refresh;
  })

-- The three builders' `start`, up to the preparation.
unfoldable pub prepare_vaddr : ℕ → WorkflowOptions → List ProcessTarget → Result PreparedWorkflow
unfolding prepare_workflow
prepare_vaddr page options targets = do
  invalid_if (is_empty targets) "virtual-address targets" "requires at least one process identifier"
  prepare_workflow page options virtual_address targets one

unfoldable pub prepare_fvaddr : ℕ → WorkflowOptions → List ProcessTarget → Result PreparedWorkflow
unfolding prepare_workflow
prepare_fvaddr page options targets = do
  invalid_if (is_empty targets) "fixed virtual-address targets"
      "requires at least one process identifier"
  prepare_workflow page options fixed_virtual_address targets one

unfoldable pub prepare_paddr : ℕ → WorkflowOptions → AddressUnit → Result PreparedWorkflow
unfolding prepare_workflow
prepare_paddr page options unit = prepare_workflow page options physical_address [] unit
