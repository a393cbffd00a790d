-- ===== src/Sysfs/Capabilities/Feature.antt =====
-- `SysfsFeature` of src/sysfs/capabilities/model.rs.
use damon_rs.Common.{ℕ, Bool, Option, none, some, String, ◌==◌}

pub data SysfsFeature : Type 0 where
  virtual_address_operation physical_address_operation fixed_virtual_address_operation schemes :
      SysfsFeature
  scheme_time_quota scheme_size_quota scheme_prioritization scheme_watermarks : SysfsFeature
  scheme_successful_stats scheme_quota_exceeded_stats available_operations : SysfsFeature
  online_parameters_commit periodic_refresh address_unit context_pause attribute_probe_count :
      SysfsFeature
  probe_filter_count probe_filter_type probe_filter_matching probe_filter_allow : SysfsFeature
  probe_filter_path scheme_apply_interval obsolete_target initial_regions tried_regions :
      SysfsFeature
  tried_regions_total_bytes scheme_filters scheme_filter_anonymous : SysfsFeature
  scheme_filter_memory_control_group scheme_filter_address scheme_filter_target : SysfsFeature
  scheme_filter_young scheme_filter_huge_page_size scheme_filter_unmapped scheme_filter_active :
      SysfsFeature
  scheme_filter_probe_hits_weighted_sum separate_scheme_filter_directories scheme_filter_allow :
      SysfsFeature
  scheme_quota_goals scheme_quota_effective_bytes scheme_quota_goal_metric : SysfsFeature
  scheme_quota_goal_some_psi scheme_quota_goal_node_memory : SysfsFeature
  scheme_quota_goal_node_memory_control_group scheme_quota_goal_active_memory : SysfsFeature
  scheme_quota_goal_node_eligible_memory scheme_quota_goal_huge_page_memory : SysfsFeature
  scheme_quota_goal_tuner scheme_quota_failure_charge_ratio scheme_migration : SysfsFeature
  scheme_destinations scheme_operations_filter_passed_bytes scheme_application_snapshot_count :
      SysfsFeature
  scheme_application_snapshot_limit collapse_action damos_allocate_action damos_free_action :
      SysfsFeature
  monitoring_intervals_goal attribute_monitoring probe_type_anonymous : SysfsFeature
  probe_type_memory_control_group probe_weight probe_preparations : SysfsFeature
  probe_preparation_set_page_idle probe_type_page_idle_unset probe_type_page_idle_set : SysfsFeature
  sample_control operation_attributes : SysfsFeature

-- The place of a feature in the declaration, which the derived `==` compares.
unfoldable pub ordinal : SysfsFeature → ℕ
ordinal virtual_address_operation = 0
ordinal physical_address_operation = 1
ordinal fixed_virtual_address_operation = 2
ordinal schemes = 3
ordinal scheme_time_quota = 4
ordinal scheme_size_quota = 5
ordinal scheme_prioritization = 6
ordinal scheme_watermarks = 7
ordinal scheme_successful_stats = 8
ordinal scheme_quota_exceeded_stats = 9
ordinal available_operations = 10
ordinal online_parameters_commit = 11
ordinal periodic_refresh = 12
ordinal address_unit = 13
ordinal context_pause = 14
ordinal attribute_probe_count = 15
ordinal probe_filter_count = 16
ordinal probe_filter_type = 17
ordinal probe_filter_matching = 18
ordinal probe_filter_allow = 19
ordinal probe_filter_path = 20
ordinal scheme_apply_interval = 21
ordinal obsolete_target = 22
ordinal initial_regions = 23
ordinal tried_regions = 24
ordinal tried_regions_total_bytes = 25
ordinal scheme_filters = 26
ordinal scheme_filter_anonymous = 27
ordinal scheme_filter_memory_control_group = 28
ordinal scheme_filter_address = 29
ordinal scheme_filter_target = 30
ordinal scheme_filter_young = 31
ordinal scheme_filter_huge_page_size = 32
ordinal scheme_filter_unmapped = 33
ordinal scheme_filter_active = 34
ordinal scheme_filter_probe_hits_weighted_sum = 35
ordinal separate_scheme_filter_directories = 36
ordinal scheme_filter_allow = 37
ordinal scheme_quota_goals = 38
ordinal scheme_quota_effective_bytes = 39
ordinal scheme_quota_goal_metric = 40
ordinal scheme_quota_goal_some_psi = 41
ordinal scheme_quota_goal_node_memory = 42
ordinal scheme_quota_goal_node_memory_control_group = 43
ordinal scheme_quota_goal_active_memory = 44
ordinal scheme_quota_goal_node_eligible_memory = 45
ordinal scheme_quota_goal_huge_page_memory = 46
ordinal scheme_quota_goal_tuner = 47
ordinal scheme_quota_failure_charge_ratio = 48
ordinal scheme_migration = 49
ordinal scheme_destinations = 50
ordinal scheme_operations_filter_passed_bytes = 51
ordinal scheme_application_snapshot_count = 52
ordinal scheme_application_snapshot_limit = 53
ordinal collapse_action = 54
ordinal damos_allocate_action = 55
ordinal damos_free_action = 56
ordinal monitoring_intervals_goal = 57
ordinal attribute_monitoring = 58
ordinal probe_type_anonymous = 59
ordinal probe_type_memory_control_group = 60
ordinal probe_weight = 61
ordinal probe_preparations = 62
ordinal probe_preparation_set_page_idle = 63
ordinal probe_type_page_idle_unset = 64
ordinal probe_type_page_idle_set = 65
ordinal sample_control = 66
ordinal operation_attributes = 67

unfoldable pub feature_eq : SysfsFeature → SysfsFeature → Bool
unfolding ordinal
feature_eq f g = ordinal f == ordinal g

-- The name of the feature in the `damo` tool.
unfoldable pub damo_name : SysfsFeature → Option String
damo_name virtual_address_operation = some "sysfs/vaddr"
damo_name physical_address_operation = some "sysfs/paddr"
damo_name fixed_virtual_address_operation = some "sysfs/fvaddr"
damo_name schemes = some "sysfs/schemes"
damo_name scheme_time_quota = some "sysfs/schemes_time_quota"
damo_name scheme_size_quota = some "sysfs/schemes_size_quota"
damo_name scheme_prioritization = some "sysfs/schemes_prioritization"
damo_name scheme_watermarks = some "sysfs/schemes_wmarks"
damo_name scheme_successful_stats = some "sysfs/schemes_stat_succ"
damo_name scheme_quota_exceeded_stats = some "sysfs/schemes_stat_qt_exceed"
damo_name available_operations = some "sysfs/avail_ops"
damo_name online_parameters_commit = some "sysfs/online_params_commit"
damo_name periodic_refresh = some "sysfs/refresh_ms"
damo_name address_unit = some "sysfs/addr_unit"
damo_name context_pause = some "sysfs/ctx_pause"
damo_name scheme_apply_interval = some "sysfs/schemes_apply_interval"
damo_name obsolete_target = some "sysfs/obsolete_target"
damo_name initial_regions = some "sysfs/init_regions"
damo_name tried_regions = some "sysfs/schemes_tried_regions"
damo_name tried_regions_total_bytes = some "sysfs/schemes_tried_regions_sz"
damo_name scheme_filters = some "sysfs/schemes_filters"
damo_name scheme_filter_anonymous = some "sysfs/schemes_filters_anon"
damo_name scheme_filter_memory_control_group = some "sysfs/schemes_filters_memcg"
damo_name scheme_filter_address = some "sysfs/schemes_filters_addr"
damo_name scheme_filter_target = some "sysfs/schemes_filters_target"
damo_name scheme_filter_young = some "sysfs/schemes_filters_young"
damo_name scheme_filter_huge_page_size = some "sysfs/schemes_filters_hugepage_size"
damo_name scheme_filter_unmapped = some "sysfs/schemes_filters_unmapped"
damo_name scheme_filter_active = some "sysfs/schemes_filters_active"
damo_name scheme_filter_probe_hits_weighted_sum = some "sysfs/damos_filter_probe_hits_wsum"
damo_name separate_scheme_filter_directories = some "sysfs/schemes_filters_core_ops_dirs"
damo_name scheme_filter_allow = some "sysfs/allow_filter"
damo_name scheme_quota_goals = some "sysfs/schemes_quota_goals"
damo_name scheme_quota_effective_bytes = some "sysfs/schemes_quota_effective_bytes"
damo_name scheme_quota_goal_metric = some "sysfs/schemes_quota_goal_metric"
damo_name scheme_quota_goal_some_psi = some "sysfs/schemes_quota_goal_some_psi"
damo_name scheme_quota_goal_node_memory = some "sysfs/schemes_quota_goal_node_mem_used_free"
damo_name scheme_quota_goal_node_memory_control_group =
    some "sysfs/schemes_quota_goal_node_memcg_used_free"
damo_name scheme_quota_goal_active_memory = some "sysfs/damos_quota_goal_in_active_mem_bp"
damo_name scheme_quota_goal_node_eligible_memory =
    some "sysfs/damos_quota_goal_node_eligible_mem_bp"
damo_name scheme_quota_goal_tuner = some "sysfs/damos_quota_goal_tuner"
damo_name scheme_quota_failure_charge_ratio = some "sysfs/damos_quota_fail_charge_ratio"
damo_name scheme_migration = some "sysfs/schemes_migrate"
damo_name scheme_destinations = some "sysfs/schemes_dests"
damo_name scheme_operations_filter_passed_bytes = some "sysfs/sz_ops_filter_passed"
damo_name scheme_application_snapshot_count = some "sysfs/damos_stat_nr_snapshots"
damo_name scheme_application_snapshot_limit = some "sysfs/damos_max_nr_snapshots"
damo_name collapse_action = some "sysfs/damos_action_collapse"
damo_name monitoring_intervals_goal = some "sysfs/intervals_goal"
damo_name attribute_monitoring = some "sysfs/attrs_monitoring"
damo_name probe_type_anonymous = some "sysfs/probe_type_anon"
damo_name probe_type_memory_control_group = some "sysfs/probe_type_memcg"
damo_name probe_weight = some "sysfs/probe_weights"
damo_name probe_preparations = some "sysfs/probe_preps"
damo_name probe_preparation_set_page_idle = some "sysfs/probe_prep_set_pgidle"
damo_name probe_type_page_idle_unset = some "sysfs/probe_type_pgidle_unset"
damo_name probe_type_page_idle_set = some "sysfs/probe_type_pgidle_set"
damo_name sample_control = some "sysfs/damon_sample_control"
damo_name operation_attributes = some "sysfs/ops_attrs"
damo_name _ = none
