-- ===== src/Monitor/Workflow/Queries.antt =====
-- The schemes of the snapshot queries can run where the schemes of the workflow can.
use damon_rs.Common.{ℕ, ◌≤◌, ◌<◌, inr, refl, false, List, [], ◌∷◌, All, arith, length, u64_max}
use damon_rs.Validate.{kernel_index_max, validate_token, is_blank}
use damon_rs.Validate.Exact.{IsWhole}
use damon_rs.Validate.Text.{IsToken, validate_token-IsToken}
use damon_rs.Config.Duration.{Duration}
use damon_rs.Abi.Action
use damon_rs.Abi.Action.{stat}
use damon_rs.Abi.QuotaGoalTuner
use damon_rs.Abi.QuotaGoalTuner.{consistent}
use damon_rs.Abi.SchemeFilterType
use damon_rs.Abi.SchemeFilterType.{target}
use damon_rs.Abi.WatermarkMetric
use damon_rs.Abi.WatermarkMetric.{disabled}
use damon_rs.Abi.Operation.{
  Operation, virtual_address, fixed_virtual_address, physical_address, unknown,
}
use damon_rs.Model.Layer.{exact_layer}
use damon_rs.Model.Filter.{FilterConfig, target_filter}
use damon_rs.Model.Filter.Valid.{IsValidFilter}
use damon_rs.Model.Quota
use damon_rs.Model.Quota.Valid.{IsValidQuota}
use damon_rs.Model.Watermarks
use damon_rs.Model.Watermarks.{IsValidWatermarks}
use damon_rs.Model.Scheme.{SchemeConfig}
use damon_rs.Model.Scheme.Valid.{Unsupported, layer_for, IsRunnableScheme}
use damon_rs.Model.Scheme.Weights.{IsValidDestinations}
use damon_rs.Monitor.Workflow.{TargetIdentity, snapshot_query_scheme}
use damon_rs.Monitor.Workflow.Query.{target_queries}

stat-IsToken : IsToken (Action.kernel_name stat)
unfolding Action.kernel_name validate_token is_blank
stat-IsToken = (validate_token-IsToken "" (Action.kernel_name stat)).0 refl

consistent-IsToken : IsToken (QuotaGoalTuner.kernel_name consistent)
unfolding QuotaGoalTuner.kernel_name validate_token is_blank
consistent-IsToken = (validate_token-IsToken "" (QuotaGoalTuner.kernel_name consistent)).0 refl

disabled-IsToken : IsToken (WatermarkMetric.kernel_name disabled)
unfolding WatermarkMetric.kernel_name validate_token is_blank
disabled-IsToken = (validate_token-IsToken "" (WatermarkMetric.kernel_name disabled)).0 refl

target-IsToken : IsToken (SchemeFilterType.kernel_name target)
unfolding SchemeFilterType.kernel_name validate_token is_blank
target-IsToken = (validate_token-IsToken "" (SchemeFilterType.kernel_name target)).0 refl

default-IsValidQuota : IsValidQuota Quota.default
default-IsValidQuota = record {
  time = (0, refl, omega arith);
  reset = (0, refl, omega arith);
  size_weight = omega arith;
  accesses_weight = omega arith;
  age_weight = omega arith;
  count = omega arith;
  goals = tt;
  reset_needed = λ e. (refl, refl, tt);
  tuner = consistent-IsToken;
}

default-IsValidWatermarks : IsValidWatermarks Watermarks.default
default-IsValidWatermarks = record {
  token = disabled-IsToken;
  whole = (0, refl, omega arith);
  rates = tt;
}

no_destinations : IsValidDestinations []
no_destinations = record {
  count = omega arith;
  nodes = tt;
  total = omega arith;
  weighted = λ n. absurd (n refl);
}

stat_supported : (op : Operation) → ¬ Unsupported op stat
stat_supported virtual_address u = u
stat_supported fixed_virtual_address u = u
stat_supported physical_address u = u
stat_supported (unknown name) u = u

-- The query scheme with some filters.
abbrev pub query_with : Duration → List FilterConfig → SchemeConfig
query_with apply fs = record (snapshot_query_scheme apply) { filters = fs }

pub query-IsRunnable :
    (apply : Duration) (op : Operation) (n : ℕ) (fs : List FilterConfig)
    → IsWhole 1000 u64_max apply
    → length fs ≤ kernel_index_max
    → All (λ f. IsValidFilter f (layer_for f) n) fs
    → IsRunnableScheme (query_with apply fs) op n
unfolding snapshot_query_scheme
query-IsRunnable apply op n fs whole count filters = record {
  valid = record {
    token = stat-IsToken;
    apply_interval = whole;
    quota = default-IsValidQuota;
    watermarks = default-IsValidWatermarks;
    count = count;
    filters = filters;
    destinations = no_destinations;
    node_sign = tt;
  };
  supported = stat_supported op;
  migration = inr (inr (refl, refl));
  goals = λ virtual. tt;
}

pub plain-IsRunnable :
    (apply : Duration) (op : Operation) (n : ℕ)
    → IsWhole 1000 u64_max apply
    → IsRunnableScheme (snapshot_query_scheme apply) op n
unfolding snapshot_query_scheme
plain-IsRunnable apply op n whole = query-IsRunnable apply op n [] whole (omega arith) tt

target-IsValidFilter :
    (i n : ℕ)
    → i < n
    → n ≤ kernel_index_max
    → IsValidFilter (target_filter i false false) (layer_for (target_filter i false false)) n
unfolding target_filter exact_layer
target-IsValidFilter i n b m = record {
  token = target-IsToken;
  admitted = tt;
  payload = (refl, refl, refl, (i, refl, b, omega arith), refl);
}

-- The identities belong to the targets.
abbrev pub IdentifyBelow : ℕ → List TargetIdentity → Type 0
IdentifyBelow n = All λ (i : TargetIdentity). i.target_index < n

pub target_queries-IsRunnable :
    (apply : Duration) (op : Operation) (n : ℕ) (is : List TargetIdentity)
    → IsWhole 1000 u64_max apply
    → n ≤ kernel_index_max
    → IdentifyBelow n is
    → All (λ s. IsRunnableScheme s op n) (target_queries apply is)
unfolding target_queries
target_queries-IsRunnable apply op n [] whole m below = tt
target_queries-IsRunnable apply op n (i ∷ is) whole m below = (
  query-IsRunnable apply op n (target_filter i.target_index false false ∷ []) whole (omega arith)
      (target-IsValidFilter i.target_index n below.0 m, tt),
  target_queries-IsRunnable apply op n is whole m below.1,
)
