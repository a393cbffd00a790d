-- ===== src/Model/Quota.antt =====
-- `QuotaWeights`, `QuotaGoalConfig` and `QuotaConfig` of src/sysfs/configuration/model/scheme.rs.
pub mod Valid
use damon_rs.Common.{
  ℕ, Bool, true, false, not, ◌&&◌, ◌||◌, Option, none, some, String, List, [], ℤ, is_negative, any,
  length, ltb, ◌==◌, is_none, if◌then◌else◌,
}
use damon_rs.Error.{Result, ok, err, ◌>>=◌, ◌>>◌, done, invalid_if}
use damon_rs.Error.Checks.{each}
use damon_rs.Validate.{
  validate_count, validate_token, validate_sysfs_string, validate_required_path, if_some,
}
use damon_rs.Validate.Exact.{check_exact_millis}
use damon_rs.Config.Duration.{Duration, zero_duration}
use damon_rs.Abi.QuotaGoalMetric
use damon_rs.Abi.QuotaGoalMetric.{
  QuotaGoalMetric, requires_node, requires_cgroup_path, uses_basis_points,
}
use damon_rs.Abi.QuotaGoalTuner
use damon_rs.Abi.QuotaGoalTuner.{QuotaGoalTuner, consistent}

pub record QuotaWeights : Type 0 where
  pub size_per_thousand : ℕ
  pub accesses_per_thousand : ℕ
  pub age_per_thousand : ℕ

pub record QuotaGoalConfig : Type 0 where
  pub metric : QuotaGoalMetric
  pub target_value : ℕ
  pub current_value : ℕ
  pub node_id : Option ℤ
  pub cgroup_path : Option String

unfoldable pub new_goal : QuotaGoalMetric → ℕ → QuotaGoalConfig
new_goal metric target_value = record {
  metric = metric;
  target_value = target_value;
  current_value = 0;
  node_id = none;
  cgroup_path = none;
}

abbrev pub enabled : QuotaGoalConfig → Bool
enabled goal = not (goal.target_value == 0)

-- `node_id.is_some_and(|node| node < 0)`
abbrev pub negative_node : Option ℤ → Bool
negative_node none = false
negative_node (some node) = is_negative node

unfoldable pub validate_goal : QuotaGoalConfig → Result (Unit {0})
validate_goal goal = do
  validate_token "quota goal metric" (QuotaGoalMetric.kernel_name goal.metric)
  invalid_if (enabled goal && (uses_basis_points goal.metric && ltb 10000 goal.target_value))
      "quota goal target value" "basis-point metrics must not exceed 10000"
  invalid_if (enabled goal && (requires_node goal.metric && is_none goal.node_id)) "quota goal node"
      "is required by the selected metric"
  invalid_if (negative_node goal.node_id) "quota goal node" "must be non-negative"
  if enabled goal && requires_cgroup_path goal.metric
      then validate_required_path "quota goal cgroup path" goal.cgroup_path
      else if_some goal.cgroup_path (validate_sysfs_string "quota goal cgroup path")

pub record QuotaConfig : Type 0 where
  pub time : Duration
  pub size_units : ℕ
  pub reset_interval : Duration
  pub weights : QuotaWeights
  pub goals : List QuotaGoalConfig
  pub goal_tuner : QuotaGoalTuner
  pub failure_charge_numerator : ℕ
  pub failure_charge_denominator : ℕ

abbrev pub default : QuotaConfig
default = record {
  time = zero_duration;
  size_units = 0;
  reset_interval = zero_duration;
  weights = record { size_per_thousand = 0; accesses_per_thousand = 0; age_per_thousand = 0 };
  goals = [];
  goal_tuner = consistent;
  failure_charge_numerator = 0;
  failure_charge_denominator = 0;
}

unfoldable pub validate_weights : QuotaWeights → Result (Unit {0})
validate_weights w =
    invalid_if
      (ltb 1000 w.size_per_thousand
        || (ltb 1000 w.accesses_per_thousand || ltb 1000 w.age_per_thousand))
      "quota prioritization weights" "each weight must be at most 1000 parts per thousand"

abbrev pub has_active_goal : List QuotaGoalConfig → Bool
has_active_goal = any enabled

unfoldable pub validate_reset : QuotaConfig → Result (Unit {0})
validate_reset q =
    invalid_if
      ((not (q.time == zero_duration) || (not (q.size_units == 0) || has_active_goal q.goals))
        && q.reset_interval == zero_duration)
      "quota reset interval" "must be non-zero when a time, size, or goal quota is enabled"

unfoldable pub validate : QuotaConfig → Result (Unit {0})
unfolding validate_goal validate_weights validate_reset
validate q = do
  check_exact_millis "quota time" q.time
  check_exact_millis "quota reset interval" q.reset_interval
  validate_weights q.weights
  validate_count "quota goal count" (length q.goals)
  each validate_goal q.goals
  validate_reset q
  validate_token "quota goal tuner" (QuotaGoalTuner.kernel_name q.goal_tuner)
