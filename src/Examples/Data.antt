-- ===== src/Examples/Data.antt =====
-- The configurations of the examples.
use damon_rs.Common.{ℕ, true, false, some, none, List, [], ◌∷◌, pos}
use damon_rs.Config.AddressUnit.{AddressUnit, one}
use damon_rs.Config.MonitoringIntervals.{MonitoringIntervals}
use damon_rs.Abi.Action
use damon_rs.Abi.Operation
use damon_rs.Abi.ProbeFilterType
use damon_rs.Abi.QuotaGoalMetric.{node_memory_used_basis_points}
use damon_rs.Abi.SampleFilterType
use damon_rs.Abi.SchemeFilterType
use damon_rs.Abi.WatermarkMetric.{free_memory_rate}
use damon_rs.Pattern.{AccessPattern}
use damon_rs.Model.Layer.{FilterPlacement}
use damon_rs.Model.Filter.{FilterConfig}
use damon_rs.Model.Quota
use damon_rs.Model.Quota.{QuotaConfig, QuotaGoalConfig}
use damon_rs.Model.Watermarks.{WatermarksConfig}
use damon_rs.Model.Region.{InitialRegionConfig}
use damon_rs.Model.Target.{TargetConfig}
use damon_rs.Model.Probe.{ProbeConfig}
use damon_rs.Model.Sample.{SampleControlConfig, default_attributes, default_control}
use damon_rs.Model.IntervalsGoal.{IntervalsGoalConfig}
use damon_rs.Model.Scheme.{DestinationConfig, SchemeConfig}
use damon_rs.Model.Context.{ContextConfig}
use damon_rs.Model.Damon.{DamonConfig}

abbrev pub page : ℕ
page = 4096

abbrev pub first_region : InitialRegionConfig
first_region = record { start = 4096; end = 8192 }

abbrev pub second_region : InitialRegionConfig
second_region = record { start = 16384; end = 20000 }

abbrev pub regions : List InitialRegionConfig
regions = first_region ∷ second_region ∷ []

abbrev pub process_target : TargetConfig
process_target = record {
  pid = some (record { raw = 42 });
  obsolete = false;
  initial_regions = regions;
}

abbrev pub young_filter : FilterConfig
young_filter = record {
  placement = FilterPlacement.operations;
  filter_type = SchemeFilterType.young;
  matching = true;
  allow = false;
  cgroup_path = none;
  address_range = none;
  size_range = none;
  target_index = none;
  probe_hits_weighted_sum_range = none;
}

abbrev pub target_filter : FilterConfig
target_filter = record young_filter {
  placement = FilterPlacement.core;
  filter_type = SchemeFilterType.target;
  target_index = some 0;
}

abbrev pub filters : List FilterConfig
filters = young_filter ∷ target_filter ∷ []

abbrev pub goal : QuotaGoalConfig
goal = record {
  metric = node_memory_used_basis_points;
  target_value = 9000;
  current_value = 0;
  node_id = some (pos 0);
  cgroup_path = none;
}

abbrev pub quota : QuotaConfig
quota = record Quota.default { reset_interval = 1000000000; goals = goal ∷ [] }

abbrev pub watermarks : WatermarksConfig
watermarks = record {
  metric = free_memory_rate;
  interval = 5000000;
  high = 500;
  middle = 400;
  low = 200;
}

abbrev pub pattern : AccessPattern
pattern = record {
  size = record { min = 4096; max = 18446744073709551615 };
  accesses = record { min = 0; max = 0 };
  age = record { min = 10; max = 100 };
}

-- The pattern as a 32-bit kernel reports it.
abbrev pub narrow_pattern : AccessPattern
narrow_pattern = record pattern { size = record { min = 4096; max = 4294967295 } }

abbrev pub destinations : List DestinationConfig
destinations = record { node_id = 1; weight = 3 } ∷ record { node_id = 2; weight = 1 } ∷ []

abbrev pub scheme : SchemeConfig
scheme = record {
  action = Action.migrate_cold;
  access_pattern = pattern;
  apply_interval = 1000000;
  target_node = none;
  quota = quota;
  watermarks = watermarks;
  filters = filters;
  destinations = destinations;
  application_snapshot_limit = 0;
}

abbrev pub intervals : MonitoringIntervals
intervals = record { sample_us = 5000; aggregation_us = 100000; update_us = 1000000 }

abbrev pub intervals_goal : IntervalsGoalConfig
intervals_goal = record {
  access_basis_points = 400;
  aggregation_intervals = 3;
  minimum_sample = 5000000;
  maximum_sample = 10000000;
}

abbrev pub probe : ProbeConfig
probe = record {
  filters =
      record {
        filter_type = ProbeFilterType.memory_control_group;
        matching = true;
        allow = true;
        cgroup_path = some "/apps";
      }
      ∷ [];
  weight = 2;
  preparations = [];
}

abbrev pub page_faults : SampleControlConfig
page_faults = record {
  primitives = record { page_table = false; page_fault = true };
  filters =
      record {
        filter_type = SampleFilterType.cpu_mask;
        matching = true;
        allow = true;
        mask = some "0-3";
        thread_ids = none;
      }
      ∷ [];
}

abbrev pub context : ContextConfig
context = record {
  operation = Operation.virtual_address;
  address_unit = one;
  paused = false;
  operation_attributes = default_attributes;
  intervals = intervals;
  intervals_goal = intervals_goal;
  region_bounds = record { min = 10; max = 1000 };
  probes = probe ∷ [];
  sample_control = default_control;
  targets = process_target ∷ [];
  schemes = scheme ∷ [];
}

abbrev pub config : DamonConfig
config = record { kdamonds = record { refresh_interval = 1000000; contexts = context ∷ [] } ∷ [] }

-- What a 32-bit kernel with split directories reports for it.
abbrev pub observed : DamonConfig
observed = record {
  kdamonds =
      record {
        refresh_interval = 1000000;
        contexts =
            record context {
              schemes =
                  record scheme {
                    access_pattern = narrow_pattern;
                    filters = target_filter ∷ young_filter ∷ [];
                  }
                  ∷ [];
            }
            ∷ [];
      }
      ∷ [];
}

abbrev pub unit : AddressUnit
unit = record { bytes = 4096 }
