-- ===== src/Model/Scheme.antt =====
-- `DestinationConfig` and `SchemeConfig` of src/sysfs/configuration/model/scheme.rs.
pub mod Valid
pub mod Weights
use damon_rs.Common.{
  ℕ, ◌+◌, Bool, true, false, not, ◌&&◌, ◌||◌, Option, none, some, String, List, [], ◌∷◌, ℤ,
  is_negative, is_empty, is_some, any, length, ltb, ◌==◌, fit, u32_max, i32_max,
}
use damon_rs.Error.{Result, ok, err, ◌>>=◌, ◌>>◌, done, ok_or, invalid_if, invalid_configuration}
use damon_rs.Error.Checks.{each}
use damon_rs.Validate.{validate_count, validate_token}
use damon_rs.Validate.Exact.{check_exact_micros}
use damon_rs.Config.Duration.{Duration, zero_duration}
use damon_rs.Abi.Action
use damon_rs.Abi.Action.{Action, migrate_hot, migrate_cold}
use damon_rs.Abi.Operation.{Operation, virtual_address, fixed_virtual_address, physical_address}
use damon_rs.Abi.QuotaGoalMetric.{QuotaGoalMetric, node_eligible_memory_basis_points}
use damon_rs.Pattern.{AccessPattern}
use damon_rs.Model.Filter
use damon_rs.Model.Filter.{FilterConfig}
use damon_rs.Model.Quota
use damon_rs.Model.Quota.{QuotaConfig, QuotaGoalConfig, negative_node}
use damon_rs.Model.Watermarks
use damon_rs.Model.Watermarks.{WatermarksConfig}

pub record DestinationConfig : Type 0 where
  pub node_id : ℕ
  pub weight : ℕ

pub record SchemeConfig : Type 0 where
  pub action : Action
  pub access_pattern : AccessPattern
  pub apply_interval : Duration
  pub target_node : Option ℤ
  pub quota : QuotaConfig
  pub watermarks : WatermarksConfig
  pub filters : List FilterConfig
  pub destinations : List DestinationConfig
  pub application_snapshot_limit : ℕ

unfoldable pub new : Action → AccessPattern → SchemeConfig
new action access_pattern = record {
  action = action;
  access_pattern = access_pattern;
  apply_interval = zero_duration;
  target_node = none;
  quota = Quota.default;
  watermarks = Watermarks.default;
  filters = [];
  destinations = [];
  application_snapshot_limit = 0;
}

-- The loop over the destinations, with its `total_weight`, which a `u32` holds.
unfoldable pub sum_weights : ℕ → List DestinationConfig → Result ℕ
sum_weights total_weight [] = ok total_weight
sum_weights total_weight (d ∷ ds) = do
  invalid_if (ltb i32_max d.node_id) "migration destination node"
      "must fit the kernel's signed NUMA node identifier"
  total ← ok_or (fit u32_max (total_weight + d.weight)) (
      invalid_configuration "migration destination weights"
        "sum must fit the kernel's unsigned-int accumulator")
  sum_weights total ds

unfoldable pub validate_destinations : List DestinationConfig → Result (Unit {0})
validate_destinations destinations = do
  validate_count "migration destination count" (length destinations)
  total_weight ← sum_weights 0 destinations
  invalid_if (not (is_empty destinations) && total_weight == 0) "migration destination weights"
      "at least one destination must have non-zero weight"

unfoldable pub validate_for : SchemeConfig → ℕ → Result (Unit {0})
validate_for s target_count = do
  validate_token "scheme action" (Action.kernel_name s.action)
  check_exact_micros "scheme apply interval" s.apply_interval
  Quota.validate s.quota
  Watermarks.validate s.watermarks
  validate_count "scheme filter count" (length s.filters)
  each (λ f. Filter.validate f target_count) s.filters
  validate_destinations s.destinations
  invalid_if (negative_node s.target_node) "migration target node"
      "must be non-negative, or None for NUMA_NO_NODE"

-- The actions that the virtual-address operations support, as far as the crate knows them.
unfoldable pub supported_virtual : Action → Bool
supported_virtual Action.will_need = true
supported_virtual Action.cold = true
supported_virtual Action.page_out = true
supported_virtual Action.huge_page = true
supported_virtual Action.no_huge_page = true
supported_virtual Action.collapse = true
supported_virtual Action.migrate_hot = true
supported_virtual Action.migrate_cold = true
supported_virtual Action.stat = true
supported_virtual (Action.unknown name) = true
supported_virtual _ = false

unfoldable pub supported_physical : Action → Bool
supported_physical Action.page_out = true
supported_physical Action.lru_prioritize = true
supported_physical Action.lru_deprioritize = true
supported_physical Action.migrate_hot = true
supported_physical Action.migrate_cold = true
supported_physical Action.damos_allocate = true
supported_physical Action.damos_free = true
supported_physical Action.stat = true
supported_physical (Action.unknown name) = true
supported_physical _ = false

unfoldable pub known_supported : Operation → Action → Bool
unfolding supported_virtual supported_physical
known_supported virtual_address action = supported_virtual action
known_supported fixed_virtual_address action = supported_virtual action
known_supported physical_address action = supported_physical action
known_supported (Operation.unknown name) action = true

unfoldable pub is_migration : Action → Bool
is_migration migrate_hot = true
is_migration migrate_cold = true
is_migration _ = false

unfoldable pub is_eligible_memory : QuotaGoalMetric → Bool
is_eligible_memory node_eligible_memory_basis_points = true
is_eligible_memory _ = false

-- The operation is a virtual-address one.
unfoldable pub is_virtual : Operation → Bool
is_virtual virtual_address = true
is_virtual fixed_virtual_address = true
is_virtual _ = false

unfoldable pub validate_runnable_for : SchemeConfig → Operation → ℕ → Result (Unit {0})
validate_runnable_for s operation target_count = do
  validate_for s target_count
  invalid_if (not (known_supported operation s.action)) "scheme action"
      "is not supported by the selected monitoring operation"
  invalid_if
      (not (is_migration s.action) && (is_some s.target_node || not (is_empty s.destinations)))
      "migration destination" "requires a migrate_hot or migrate_cold scheme action"
  invalid_if
      (is_virtual operation
        && any (λ (g : QuotaGoalConfig). is_eligible_memory g.metric) s.quota.goals)
      "quota goal metric" "node_eligible_mem_bp requires physical-address monitoring"
