-- ===== src/Model/Sample.antt =====
-- The sampling configuration values of src/sysfs/configuration/model/target.rs.
use damon_rs.Common.{
  ◌≤◌, ◌≡◌, ◌↔◌, refl, Bool, true, false, ◌||◌, Option, none, String, List, [], All, length,
  is_some, arith,
}
use damon_rs.Error.{Result, ◌>>◌, done, invalid_if}
use damon_rs.Error.Checks.{Passes, each, each_iff}
use damon_rs.Validate.{
  validate_count, validate_token, validate_sysfs_string, validate_required_path, if_some,
  kernel_index_max,
}
use damon_rs.Validate.Text.{
  IsToken, IsLine, IsPath, Each, if_some-Each, path-Each, validate_count-le, validate_token-IsToken,
  validate_sysfs_string-IsLine, validate_required_path-IsPath,
}
use damon_rs.Abi.SampleFilterType
use damon_rs.Abi.SampleFilterType.{SampleFilterType, cpu_mask, threads, write, unknown}

pub record OperationAttributesConfig : Type 0 where
  pub use_reports : Bool
  pub write_only : Bool
  pub cpus : String
  pub thread_ids : String

abbrev pub default_attributes : OperationAttributesConfig
default_attributes = record {
  use_reports = false;
  write_only = false;
  cpus = "all";
  thread_ids = "";
}

unfoldable pub validate_attributes : OperationAttributesConfig → Result (Unit {0})
validate_attributes a = do
  validate_sysfs_string "operation CPU list" a.cpus
  validate_sysfs_string "operation thread list" a.thread_ids

pub record SampleFilterConfig : Type 0 where
  pub filter_type : SampleFilterType
  pub matching : Bool
  pub allow : Bool
  pub mask : Option String
  pub thread_ids : Option String

-- The match of `SampleFilterConfig::validate`.
unfoldable pub validate_payload :
    SampleFilterType → Option String → Option String → Result (Unit {0})
validate_payload cpu_mask mask thread_ids = do
  validate_required_path "sample filter CPU mask" mask
  invalid_if (is_some thread_ids) "sample filter payload"
      "a thread list does not belong to a cpumask filter"
validate_payload threads mask thread_ids = do
  validate_required_path "sample filter thread list" thread_ids
  invalid_if (is_some mask) "sample filter payload" "a CPU mask does not belong to a threads filter"
validate_payload write mask thread_ids =
    invalid_if (is_some mask || is_some thread_ids) "sample filter payload"
      "write filters do not accept a CPU mask or thread list"
validate_payload (unknown name) mask thread_ids = done

unfoldable pub validate_filter : SampleFilterConfig → Result (Unit {0})
validate_filter f = do
  validate_token "sample filter type" (SampleFilterType.kernel_name f.filter_type)
  validate_payload f.filter_type f.mask f.thread_ids
  if_some f.mask (validate_sysfs_string "sample filter CPU mask")
  if_some f.thread_ids (validate_sysfs_string "sample filter thread list")

pub record SamplePrimitivesConfig : Type 0 where
  pub page_table : Bool
  pub page_fault : Bool

pub record SampleControlConfig : Type 0 where
  pub primitives : SamplePrimitivesConfig
  pub filters : List SampleFilterConfig

abbrev pub default_control : SampleControlConfig
default_control = record {
  primitives = record { page_table = true; page_fault = false };
  filters = [];
}

unfoldable pub validate_control : SampleControlConfig → Result (Unit {0})
validate_control c = do
  validate_count "sample filter count" (length c.filters)
  each validate_filter c.filters

-- A filter has the data of its type and no other.
abbrev pub HasPayload : SampleFilterType → Option String → Option String → Type 0
HasPayload cpu_mask mask thread_ids = IsPath mask × (thread_ids ≡ none)
HasPayload threads mask thread_ids = (mask ≡ none) × IsPath thread_ids
HasPayload write mask thread_ids = (mask ≡ none) × (thread_ids ≡ none)
HasPayload (unknown name) mask thread_ids = Each mask IsLine × Each thread_ids IsLine

pub record IsValidSampleFilter (f : SampleFilterConfig) : Type 0 where
  pub token : IsToken (SampleFilterType.kernel_name f.filter_type)
  pub payload : HasPayload f.filter_type f.mask f.thread_ids

abbrev pub IsValidAttributes : OperationAttributesConfig → Type 0
IsValidAttributes a = IsLine a.cpus × IsLine a.thread_ids

abbrev pub IsValidControl : SampleControlConfig → Type 0
IsValidControl c = (length c.filters ≤ kernel_index_max) × All IsValidSampleFilter c.filters

pub validate_attributes-IsValidAttributes :
    (a : OperationAttributesConfig) → Passes (validate_attributes a) ↔ IsValidAttributes a
unfolding validate_attributes
validate_attributes-IsValidAttributes a =
    let cpus = validate_sysfs_string-IsLine "operation CPU list" a.cpus in
    let thread_ids = validate_sysfs_string-IsLine "operation thread list" a.thread_ids in
    (
      λ h. (cpus.0 (ground arith), thread_ids.0 (ground arith)),
      λ v. ground (arith, cpus.1 v.0, thread_ids.1 v.1),
    )

mask_iff :
    (o : Option String)
    → Passes (if_some o (validate_sysfs_string "sample filter CPU mask")) ↔ Each o IsLine
mask_iff = if_some-Each _ IsLine (validate_sysfs_string-IsLine "sample filter CPU mask")

thread_ids_iff :
    (o : Option String)
    → Passes (if_some o (validate_sysfs_string "sample filter thread list")) ↔ Each o IsLine
thread_ids_iff = if_some-Each _ IsLine (validate_sysfs_string-IsLine "sample filter thread list")

payload_iff :
    (ty : SampleFilterType) (m t : Option String)
    → (Passes (validate_payload ty m t)
        × Passes (if_some m (validate_sysfs_string "sample filter CPU mask"))
        × Passes (if_some t (validate_sysfs_string "sample filter thread list")))
      ↔ HasPayload ty m t
unfolding validate_payload
payload_iff cpu_mask m t =
    let path = validate_required_path-IsPath "sample filter CPU mask" m in
    (
      λ h. (path.0 (ground arith), ground arith),
      λ h. (ground (arith, path.1 h.0), (mask_iff m).1 (path-Each m h.0), ground arith),
    )
payload_iff threads m t =
    let path = validate_required_path-IsPath "sample filter thread list" t in
    (
      λ h. (ground arith, path.0 (ground arith)),
      λ h. (ground (arith, path.1 h.1), ground arith, (thread_ids_iff t).1 (path-Each t h.1)),
    )
payload_iff write m t = (λ h. ground arith, λ h. ground arith)
payload_iff (unknown name) m t = (
  λ h. ((mask_iff m).0 h.1, (thread_ids_iff t).0 h.2),
  λ h. (refl, (mask_iff m).1 h.0, (thread_ids_iff t).1 h.1),
)

filter_iff : (f : SampleFilterConfig) → Passes (validate_filter f) ↔ IsValidSampleFilter f
unfolding validate_filter
filter_iff f =
    let token =
      validate_token-IsToken "sample filter type" (SampleFilterType.kernel_name f.filter_type) in
    let payload = payload_iff f.filter_type f.mask f.thread_ids in
    (
      λ h. record {
        token = token.0 (ground arith);
        payload = payload.0 (ground arith, ground arith, ground arith);
      },
      λ v. ground (arith, token.1 v.token, payload.1 v.payload),
    )

-- The validation accepts exactly the sample controls with at most i32::MAX filters, each with a
-- token for a type name and with the mask or thread list of its type, valid, and no other.
pub validate_control-IsValidControl :
    (c : SampleControlConfig) → Passes (validate_control c) ↔ IsValidControl c
unfolding validate_control
validate_control-IsValidControl c =
    let count = validate_count-le "sample filter count" (length c.filters) in
    let filters = each_iff filter_iff c.filters in
    (
      λ h. (count.0 (ground arith), filters.0 (ground arith)),
      λ v. ground (arith, count.1 v.0, filters.1 v.1),
    )
