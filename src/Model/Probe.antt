-- ===== src/Model/Probe.antt =====
-- The probe configuration values of src/sysfs/configuration/model/target.rs.
use damon_rs.Common.{
  ℕ, ◌≤◌, ◌≡◌, ◌↔◌, refl, Bool, Option, none, some, String, List, All, length, arith,
}
use damon_rs.Error.{Result, ◌>>◌, done, invalid}
use damon_rs.Error.Checks.{Passes, each, each_iff}
use damon_rs.Validate.{
  validate_count, validate_token, validate_sysfs_string, validate_required_path, if_some,
  kernel_index_max,
}
use damon_rs.Validate.Text.{
  IsToken, IsLine, IsPath, Each, validate_count-le, validate_token-IsToken,
  validate_sysfs_string-IsLine, validate_required_path-IsPath,
}
use damon_rs.Abi.ProbeFilterType
use damon_rs.Abi.ProbeFilterType.{ProbeFilterType, memory_control_group, unknown}
use damon_rs.Abi.ProbePreparationAction
use damon_rs.Abi.ProbePreparationAction.{ProbePreparationAction}

pub record ProbeFilterConfig : Type 0 where
  pub filter_type : ProbeFilterType
  pub matching : Bool
  pub allow : Bool
  pub cgroup_path : Option String

pub record ProbePreparationConfig : Type 0 where
  pub action : ProbePreparationAction

pub record ProbeConfig : Type 0 where
  pub filters : List ProbeFilterConfig
  pub weight : ℕ
  pub preparations : List ProbePreparationConfig

-- The branches on the filter type of `ProbeFilterConfig::validate`.
unfoldable pub validate_path : ProbeFilterType → Option String → Result (Unit {0})
validate_path memory_control_group path = validate_required_path "probe filter cgroup path" path
validate_path (unknown name) path = if_some path (validate_sysfs_string "probe filter cgroup path")
validate_path _ none = done
validate_path _ (some path) =
    invalid "probe filter payload" "a cgroup path belongs only to a memcg or unknown filter"

unfoldable pub validate_filter : ProbeFilterConfig → Result (Unit {0})
validate_filter f = do
  validate_token "probe filter type" (ProbeFilterType.kernel_name f.filter_type)
  validate_path f.filter_type f.cgroup_path

unfoldable pub validate_preparation : ProbePreparationConfig → Result (Unit {0})
validate_preparation p =
    validate_token "probe preparation action" (ProbePreparationAction.kernel_name p.action)

unfoldable pub validate : ProbeConfig → Result (Unit {0})
validate p = do
  validate_count "probe filter count" (length p.filters)
  validate_count "probe preparation count" (length p.preparations)
  each validate_filter p.filters
  each validate_preparation p.preparations

-- A filter has a path where its type takes one, and nowhere else.
abbrev pub HasPath : ProbeFilterType → Option String → Type 0
HasPath memory_control_group path = IsPath path
HasPath (unknown name) path = Each path IsLine
HasPath _ path = path ≡ none

pub record IsValidProbeFilter (f : ProbeFilterConfig) : Type 0 where
  pub token : IsToken (ProbeFilterType.kernel_name f.filter_type)
  pub path : HasPath f.filter_type f.cgroup_path

pub record IsValidProbe (p : ProbeConfig) : Type 0 where
  pub filter_count : length p.filters ≤ kernel_index_max
  pub preparation_count : length p.preparations ≤ kernel_index_max
  pub filters : All IsValidProbeFilter p.filters
  pub preparations :
      All
        (λ (q : ProbePreparationConfig). IsToken (ProbePreparationAction.kernel_name q.action))
        p.preparations

path_iff : (ty : ProbeFilterType) (o : Option String) → Passes (validate_path ty o) ↔ HasPath ty o
unfolding validate_path
path_iff memory_control_group o = validate_required_path-IsPath "probe filter cgroup path" o
path_iff (unknown name) none = (λ h. tt, λ h. refl)
path_iff (unknown name) (some s) = validate_sysfs_string-IsLine "probe filter cgroup path" s
path_iff _ none = (λ h. refl, λ h. refl)
path_iff _ (some s) = (λ h. cc, λ h. cc)

filter_iff : (f : ProbeFilterConfig) → Passes (validate_filter f) ↔ IsValidProbeFilter f
unfolding validate_filter
filter_iff f =
    let token =
      validate_token-IsToken "probe filter type" (ProbeFilterType.kernel_name f.filter_type) in
    let path = path_iff f.filter_type f.cgroup_path in
    (
      λ h. record { token = token.0 (ground arith); path = path.0 (ground arith) },
      λ v. ground (arith, token.1 v.token, path.1 v.path),
    )

preparation_iff :
    (p : ProbePreparationConfig)
    → Passes (validate_preparation p) ↔ IsToken (ProbePreparationAction.kernel_name p.action)
unfolding validate_preparation
preparation_iff p =
    validate_token-IsToken "probe preparation action" (ProbePreparationAction.kernel_name p.action)

-- The validation accepts exactly the probes with at most i32::MAX filters and preparations, whose
-- names are tokens and whose filters have a cgroup path where their type takes one, a valid one.
pub validate-IsValidProbe : (p : ProbeConfig) → Passes (validate p) ↔ IsValidProbe p
unfolding validate
validate-IsValidProbe p =
    let filter_count = validate_count-le "probe filter count" (length p.filters) in
    let preparation_count = validate_count-le "probe preparation count" (length p.preparations) in
    let filters = each_iff filter_iff p.filters in
    let preparations = each_iff preparation_iff p.preparations in
    (
      λ h. record {
        filter_count = filter_count.0 (ground arith);
        preparation_count = preparation_count.0 (ground arith);
        filters = filters.0 (ground arith);
        preparations = preparations.0 (ground arith);
      },
      λ v. ground (
        arith,
        filter_count.1 v.filter_count,
        preparation_count.1 v.preparation_count,
        filters.1 v.filters,
        preparations.1 v.preparations,
      ),
    )
