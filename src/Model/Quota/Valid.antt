-- ===== src/Model/Quota/Valid.antt =====
-- What the quota validation accepts.
use damon_rs.Common.{
  ◌≤◌, ◌<◌, ◌≡◌, ◌≢◌, ◌↔◌, refl, Bool, true, false, ◌&&◌, Option, none, some, String, List, [], ◌∷◌,
  ℤ, is_negative, All, length, arith, u64_max, if◌then◌else◌,
}
use damon_rs.Error.Checks.{Passes, each, each_iff}
use damon_rs.Validate.{validate_sysfs_string, validate_required_path, if_some, kernel_index_max}
use damon_rs.Validate.Text.{
  IsToken, IsLine, IsPath, Each, if_some-Each, path-Each, validate_count-le, validate_token-IsToken,
  validate_sysfs_string-IsLine, validate_required_path-IsPath,
}
use damon_rs.Validate.Exact.{IsWhole, check_exact_millis-IsWhole}
use damon_rs.Abi.QuotaGoalMetric
use damon_rs.Abi.QuotaGoalMetric.{requires_node, requires_cgroup_path, uses_basis_points}
use damon_rs.Abi.QuotaGoalTuner
use damon_rs.Model.Quota.{
  QuotaGoalConfig, QuotaConfig, enabled, negative_node, has_active_goal, validate_goal, validate,
}

-- A goal is enabled by a target value that is not zero.
abbrev pub IsActive : QuotaGoalConfig → Type 0
IsActive g = 0 < g.target_value

pub record IsValidGoal (g : QuotaGoalConfig) : Type 0 where
  pub token : IsToken (QuotaGoalMetric.kernel_name g.metric)
  pub basis_points : IsActive g → uses_basis_points g.metric ≡ true → g.target_value ≤ 10000
  pub node : IsActive g → requires_node g.metric ≡ true → g.node_id ≢ none
  pub node_sign : Each g.node_id (λ n. is_negative n ≡ false)
  pub path : IsActive g → requires_cgroup_path g.metric ≡ true → IsPath g.cgroup_path
  pub path_line : Each g.cgroup_path IsLine

pub node_sign_iff : (o : Option ℤ) → (negative_node o ≡ false) ↔ Each o (λ n. is_negative n ≡ false)
node_sign_iff none = (λ h. tt, λ h. refl)
node_sign_iff (some n) = (λ h. h, λ h. h)

optional_iff :
    (b : Bool) (f : String) (o : Option String)
    → Passes (if b then validate_required_path f o else if_some o (validate_sysfs_string f))
      ↔ ((b ≡ true → IsPath o) × Each o IsLine)
optional_iff true f o =
    let path = validate_required_path-IsPath f o in
    (λ h. (λ _. path.0 h, path-Each o (path.0 h)), λ h. path.1 (h.0 refl))
optional_iff false f o =
    let line = if_some-Each (validate_sysfs_string f) IsLine (validate_sysfs_string-IsLine f) o in
    (λ h. (λ e. cc, line.0 h), λ h. line.1 h.1)

-- The validation accepts exactly the quota goals whose metric name is a token, whose target is at
-- most 10000 where it is active and in basis points, and whose node and cgroup path are there
-- where the active metric needs them and valid where they are there.
pub validate_goal-IsValidGoal : (g : QuotaGoalConfig) → Passes (validate_goal g) ↔ IsValidGoal g
unfolding validate_goal
validate_goal-IsValidGoal g =
    let token = validate_token-IsToken "quota goal metric" (QuotaGoalMetric.kernel_name g.metric) in
    let sign = node_sign_iff g.node_id in
    let path =
      optional_iff (enabled g && requires_cgroup_path g.metric) "quota goal cgroup path"
        g.cgroup_path in
    (
      λ h. record {
        token = token.0 (ground arith);
        basis_points = λ a u. ground arith;
        node = λ a r. ground arith;
        node_sign = sign.0 (ground arith);
        path = λ a r. (path.0 (ground arith)).0 (ground arith);
        path_line = (path.0 (ground arith)).1;
      },
      λ v. ground (
        arith,
        token.1 v.token,
        v.basis_points,
        v.node,
        sign.1 v.node_sign,
        path.1 (λ e. v.path (ground arith) (ground arith), v.path_line),
      ),
    )

pub record IsValidQuota (q : QuotaConfig) : Type 0 where
  pub time : IsWhole 1000000 u64_max q.time
  pub reset : IsWhole 1000000 u64_max q.reset_interval
  pub size_weight : q.weights.size_per_thousand ≤ 1000
  pub accesses_weight : q.weights.accesses_per_thousand ≤ 1000
  pub age_weight : q.weights.age_per_thousand ≤ 1000
  pub count : length q.goals ≤ kernel_index_max
  pub goals : All IsValidGoal q.goals
  -- A quota without a reset interval has no time or size limit and no active goal.
  pub reset_needed :
      q.reset_interval ≡ 0
      → (q.time ≡ 0) × (q.size_units ≡ 0) × All (λ g. g.target_value ≡ 0) q.goals
  pub tuner : IsToken (QuotaGoalTuner.kernel_name q.goal_tuner)

no_active :
    (gs : List QuotaGoalConfig) → (has_active_goal gs ≡ false) ↔ All (λ g. g.target_value ≡ 0) gs
no_active [] = (λ h. tt, λ h. refl)
no_active (g ∷ gs) =
    let rest = no_active gs in
    (λ h. (ground arith, rest.0 (ground arith)), λ h. ground (arith, rest.1 h.1))

goals-IsValidGoal :
    (gs : List QuotaGoalConfig) → Passes (each validate_goal gs) ↔ All IsValidGoal gs
goals-IsValidGoal = each_iff validate_goal-IsValidGoal

-- The validation accepts exactly the quotas with exact durations, weights of at most 1000, at
-- most i32::MAX goals, all valid, a reset interval wherever a time, a size or a goal limits, and
-- a tuner whose name is a token.
pub validate-IsValidQuota : (q : QuotaConfig) → Passes (validate q) ↔ IsValidQuota q
unfolding validate
validate-IsValidQuota q =
    let time = check_exact_millis-IsWhole "quota time" q.time in
    let reset = check_exact_millis-IsWhole "quota reset interval" q.reset_interval in
    let count = validate_count-le "quota goal count" (length q.goals) in
    let goals = goals-IsValidGoal q.goals in
    let active = no_active q.goals in
    let tuner =
      validate_token-IsToken "quota goal tuner" (QuotaGoalTuner.kernel_name q.goal_tuner) in
    (
      λ h. record {
        time = time.0 (ground arith);
        reset = reset.0 (ground arith);
        size_weight = ground arith;
        accesses_weight = ground arith;
        age_weight = ground arith;
        count = count.0 (ground arith);
        goals = goals.0 (ground arith);
        reset_needed = λ z. (ground arith, ground arith, active.0 (ground arith));
        tuner = tuner.0 (ground arith);
      },
      λ v. ground (
        arith,
        time.1 v.time,
        reset.1 v.reset,
        count.1 v.count,
        goals.1 v.goals,
        v.reset_needed,
        λ (z : q.reset_interval ≡ 0). active.1 (v.reset_needed z).2,
        tuner.1 v.tuner,
      ),
    )
