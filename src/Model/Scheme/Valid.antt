-- ===== src/Model/Scheme/Valid.antt =====
-- What the scheme validation accepts: for staging, and for a running context.
use damon_rs.Common.{
  ℕ, ◌≤◌, ◌≡◌, ◌≢◌, ◌↔◌, ◌⊎◌, refl, true, false, not, ◌&&◌, ◌||◌, none, List, [], ◌∷◌, is_negative,
  is_empty, is_some, any, All, length, arith, u64_max,
}
use damon_rs.Error.Checks.{Passes, each_iff}
use damon_rs.Validate.{kernel_index_max}
use damon_rs.Validate.Text.{IsToken, Each, validate_count-le, validate_token-IsToken}
use damon_rs.Validate.Exact.{IsWhole, check_exact_micros-IsWhole}
use damon_rs.Abi.Action
use damon_rs.Abi.Action.{Action}
use damon_rs.Abi.Operation.{Operation, virtual_address, fixed_virtual_address, physical_address}
use damon_rs.Abi.QuotaGoalMetric.{node_eligible_memory_basis_points}
use damon_rs.Model.Layer.{FilterLayer, exact_layer}
use damon_rs.Model.Filter
use damon_rs.Model.Filter.{FilterConfig, layer_or_unified}
use damon_rs.Model.Filter.Valid.{IsValidFilter, validate_in_layer-IsValidFilter}
use damon_rs.Model.Quota.{QuotaGoalConfig}
use damon_rs.Model.Quota.Valid.{IsValidQuota, validate-IsValidQuota as quota_iff, node_sign_iff}
use damon_rs.Model.Watermarks.{IsValidWatermarks, validate-IsValidWatermarks as watermarks_iff}
use damon_rs.Model.Scheme.{
  SchemeConfig, validate_for, known_supported, supported_virtual, supported_physical, is_migration,
  is_eligible_memory, is_virtual, validate_runnable_for,
}
use damon_rs.Model.Scheme.Weights.{IsValidDestinations, validate_destinations-IsValidDestinations}

-- The layer in which a filter is validated: the exact one that it asks for, or the unified one.
abbrev pub layer_for : FilterConfig → FilterLayer
layer_for f = layer_or_unified (exact_layer f.placement)

pub record IsValidScheme (s : SchemeConfig) (n : ℕ) : Type 0 where
  pub token : IsToken (Action.kernel_name s.action)
  pub apply_interval : IsWhole 1000 u64_max s.apply_interval
  pub quota : IsValidQuota s.quota
  pub watermarks : IsValidWatermarks s.watermarks
  pub count : length s.filters ≤ kernel_index_max
  pub filters : All (λ f. IsValidFilter f (layer_for f) n) s.filters
  pub destinations : IsValidDestinations s.destinations
  pub node_sign : Each s.target_node (λ node. is_negative node ≡ false)

filter_iff :
    (n : ℕ) (f : FilterConfig) → Passes (Filter.validate f n) ↔ IsValidFilter f (layer_for f) n
unfolding Filter.validate
filter_iff n f = validate_in_layer-IsValidFilter f (layer_for f) n

-- For a number of targets, the validation accepts exactly the schemes whose action name, apply
-- interval, quota, watermarks, filters (each in its own or the unified directory), destinations
-- and target node are valid.
pub validate_for-IsValidScheme :
    (s : SchemeConfig) (n : ℕ) → Passes (validate_for s n) ↔ IsValidScheme s n
unfolding validate_for
validate_for-IsValidScheme s n =
    let token = validate_token-IsToken "scheme action" (Action.kernel_name s.action) in
    let apply = check_exact_micros-IsWhole "scheme apply interval" s.apply_interval in
    let quota = quota_iff s.quota in
    let watermarks = watermarks_iff s.watermarks in
    let count = validate_count-le "scheme filter count" (length s.filters) in
    let filters = each_iff (filter_iff n) s.filters in
    let destinations = validate_destinations-IsValidDestinations s.destinations in
    let node = node_sign_iff s.target_node in
    (
      λ h. record {
        token = token.0 (ground arith);
        apply_interval = apply.0 (ground arith);
        quota = quota.0 (ground arith);
        watermarks = watermarks.0 (ground arith);
        count = count.0 (ground arith);
        filters = filters.0 (ground arith);
        destinations = destinations.0 (ground arith);
        node_sign = node.0 (ground arith);
      },
      λ v. ground (
        arith,
        token.1 v.token,
        apply.1 v.apply_interval,
        quota.1 v.quota,
        watermarks.1 v.watermarks,
        count.1 v.count,
        filters.1 v.filters,
        destinations.1 v.destinations,
        node.1 v.node_sign,
      ),
    )

-- The actions that the operation does not support, of those that the ABI defines.
abbrev pub Unsupported : Operation → Action → Type 0
Unsupported physical_address Action.will_need = Unit
Unsupported physical_address Action.cold = Unit
Unsupported physical_address Action.huge_page = Unit
Unsupported physical_address Action.no_huge_page = Unit
Unsupported physical_address Action.collapse = Unit
Unsupported virtual_address Action.lru_prioritize = Unit
Unsupported virtual_address Action.lru_deprioritize = Unit
Unsupported virtual_address Action.damos_allocate = Unit
Unsupported virtual_address Action.damos_free = Unit
Unsupported fixed_virtual_address Action.lru_prioritize = Unit
Unsupported fixed_virtual_address Action.lru_deprioritize = Unit
Unsupported fixed_virtual_address Action.damos_allocate = Unit
Unsupported fixed_virtual_address Action.damos_free = Unit
Unsupported _ _ = ⊥

pub record IsRunnableScheme (s : SchemeConfig) (op : Operation) (n : ℕ) : Type 0 where
  pub valid : IsValidScheme s n
  pub supported : ¬ Unsupported op s.action
  pub migration :
      (s.action ≡ Action.migrate_hot)
      ⊎ ((s.action ≡ Action.migrate_cold) ⊎ ((s.target_node ≡ none) × (s.destinations ≡ [])))
  pub goals :
      is_virtual op ≡ true
      → All (λ (g : QuotaGoalConfig). g.metric ≢ node_eligible_memory_basis_points) s.quota.goals

supported_iff : (op : Operation) (a : Action) → (known_supported op a ≡ true) ↔ (¬ Unsupported op a)
unfolding known_supported supported_virtual supported_physical
supported_iff op a = (λ h u. ground arith, λ h. ground arith)

migration_iff :
    (s : SchemeConfig)
    → ((not (is_migration s.action) && (is_some s.target_node || not (is_empty s.destinations)))
        ≡ false)
      ↔ ((s.action ≡ Action.migrate_hot)
          ⊎ ((s.action ≡ Action.migrate_cold) ⊎ ((s.target_node ≡ none) × (s.destinations ≡ []))))
unfolding is_migration
migration_iff s = (λ h. ground arith, λ h. ground arith)

eligible_iff :
    (gs : List QuotaGoalConfig)
    → (any (λ (g : QuotaGoalConfig). is_eligible_memory g.metric) gs ≡ false)
      ↔ All (λ (g : QuotaGoalConfig). g.metric ≢ node_eligible_memory_basis_points) gs
unfolding is_eligible_memory
eligible_iff [] = (λ h. tt, λ h. refl)
eligible_iff (g ∷ gs) =
    let rest = eligible_iff gs in
    (λ h. (ground arith, rest.0 (ground arith)), λ h. ground (arith, h.0, rest.1 h.1))

-- The check before a run accepts exactly the valid schemes whose action the operation supports,
-- which have migration destinations or a target node only with a migration action, and no
-- eligible-memory goal for virtual addresses.
pub validate_runnable_for-IsRunnableScheme :
    (s : SchemeConfig) (op : Operation) (n : ℕ)
    → Passes (validate_runnable_for s op n) ↔ IsRunnableScheme s op n
unfolding validate_runnable_for
validate_runnable_for-IsRunnableScheme s op n =
    let valid = validate_for-IsValidScheme s n in
    let supported = supported_iff op s.action in
    let migration = migration_iff s in
    let eligible = eligible_iff s.quota.goals in
    (
      λ h. record {
        valid = valid.0 (ground arith);
        supported = supported.0 (ground arith);
        migration = migration.0 (ground arith);
        goals = λ virtual. eligible.0 (ground arith);
      },
      λ v. ground (
        arith,
        valid.1 v.valid,
        supported.1 v.supported,
        migration.1 v.migration,
        λ (e : is_virtual op ≡ true). eligible.1 (v.goals e),
      ),
    )
