-- ===== src/Model/Filter.antt =====
-- `FilterConfig` of src/sysfs/configuration/model/scheme.rs.
pub mod Valid
use damon_rs.Common.{
  ℕ, Bool, true, false, not, ◌&&◌, ◌||◌, Option, none, some, String, ltb, leb, is_some, is_none,
  if◌then◌else◌,
}
use damon_rs.Error.{Result, ok, err, ◌>>◌, done, invalid, invalid_if}
use damon_rs.Validate.{
  validate_count, validate_token, validate_sysfs_string, validate_required_path, if_some,
}
use damon_rs.Abi.SchemeFilterType.{
  SchemeFilterType, anonymous, active, memory_control_group, young, huge_page_size, unmapped,
  address, target, probe_hits_weighted_sum, unknown, kernel_name, handled_by_operations,
}
use damon_rs.Pattern.{ByteSizeRange, ProbeHitsWeightedSumRange}
use damon_rs.Model.Layer.{FilterLayer, FilterPlacement, exact_layer, layer_eq}

pub record FilterConfig : Type 0 where
  pub placement : FilterPlacement
  pub filter_type : SchemeFilterType
  pub matching : Bool
  pub allow : Bool
  pub cgroup_path : Option String
  pub address_range : Option (ℕ × ℕ)
  pub size_range : Option ByteSizeRange
  pub target_index : Option ℕ
  pub probe_hits_weighted_sum_range : Option ProbeHitsWeightedSumRange

unfoldable pub new : SchemeFilterType → Bool → Bool → FilterConfig
new filter_type matching allow = record {
  placement = FilterPlacement.adaptive;
  filter_type = filter_type;
  matching = matching;
  allow = allow;
  cgroup_path = none;
  address_range = none;
  size_range = none;
  target_index = none;
  probe_hits_weighted_sum_range = none;
}

unfoldable pub address_filter : ℕ → ℕ → Bool → Bool → FilterConfig
unfolding new
address_filter start end matching allow = record (new address matching allow) {
  address_range = some (start, end);
}

unfoldable pub memory_control_group_filter : String → Bool → Bool → FilterConfig
unfolding new
memory_control_group_filter path matching allow = record (new memory_control_group matching allow) {
  cgroup_path = some path;
}

unfoldable pub huge_page_size_filter : ByteSizeRange → Bool → Bool → FilterConfig
unfolding new
huge_page_size_filter range matching allow = record (new huge_page_size matching allow) {
  size_range = some range;
}

unfoldable pub target_filter : ℕ → Bool → Bool → FilterConfig
unfolding new
target_filter index matching allow = record (new target matching allow) {
  target_index = some index;
}

unfoldable pub weighted_sum_filter : ProbeHitsWeightedSumRange → Bool → Bool → FilterConfig
unfolding new
weighted_sum_filter range matching allow = record (new probe_hits_weighted_sum matching allow) {
  probe_hits_weighted_sum_range = some range;
}

pub data FilterPayload : Type 0 where
  nothing cgroup_path_payload address_range_payload size_range_payload : FilterPayload
  target_index_payload weighted_sum_payload : FilterPayload

abbrev pub payload_eq : FilterPayload → FilterPayload → Bool
payload_eq nothing nothing = true
payload_eq cgroup_path_payload cgroup_path_payload = true
payload_eq address_range_payload address_range_payload = true
payload_eq size_range_payload size_range_payload = true
payload_eq target_index_payload target_index_payload = true
payload_eq weighted_sum_payload weighted_sum_payload = true
payload_eq _ _ = false

unfoldable pub validate_payload_fields : FilterConfig → FilterPayload → Result (Unit {0})
validate_payload_fields f payload =
    invalid_if
      (not (payload_eq payload cgroup_path_payload) && is_some f.cgroup_path
        || (not (payload_eq payload address_range_payload) && is_some f.address_range
            || (not (payload_eq payload size_range_payload) && is_some f.size_range
                || (not (payload_eq payload target_index_payload) && is_some f.target_index
                    || not (payload_eq payload weighted_sum_payload)
                      && is_some f.probe_hits_weighted_sum_range))))
      "scheme filter payload" "contains data that does not belong to the selected filter type"

-- The first match of `validate_in_layer`.
unfoldable pub validate_layer : FilterLayer → Option Bool → Result (Unit {0})
validate_layer FilterLayer.core (some true) =
    invalid "scheme filter layer" "operations-handled filter cannot be staged in core_filters"
validate_layer FilterLayer.operations (some false) =
    invalid "scheme filter layer" "core-handled filter cannot be staged in ops_filters"
validate_layer _ _ = done

-- The second match: no data that belongs to another filter type.
unfoldable pub validate_payload : SchemeFilterType → FilterConfig → Result (Unit {0})
unfolding validate_payload_fields
validate_payload memory_control_group f = validate_payload_fields f cgroup_path_payload
validate_payload address f = validate_payload_fields f address_range_payload
validate_payload huge_page_size f = validate_payload_fields f size_range_payload
validate_payload target f = validate_payload_fields f target_index_payload
validate_payload probe_hits_weighted_sum f = validate_payload_fields f weighted_sum_payload
validate_payload (unknown name) f =
    invalid_if (is_some f.probe_hits_weighted_sum_range) "scheme filter payload"
      "a weighted-sum range requires the probe_hits_wsum filter type"
validate_payload _ f = validate_payload_fields f nothing

unfoldable pub validate_address_range : Option (ℕ × ℕ) → Result (Unit {0})
validate_address_range none = invalid "scheme address filter" "requires an address range"
validate_address_range (some (start, end)) =
    invalid_if (ltb end start) "scheme address filter"
      "start must not exceed the exclusive end boundary"

unfoldable pub validate_target_index : ℕ → Option ℕ → Result (Unit {0})
validate_target_index target_count none = invalid "target filter" "requires a target index"
validate_target_index target_count (some index) = do
  validate_count "target filter index" index
  invalid_if (leb target_count index) "target filter index" "must refer to a configured target"

-- The third match: the data that the filter type requires.
unfoldable pub validate_required : SchemeFilterType → ℕ → FilterConfig → Result (Unit {0})
unfolding validate_address_range validate_target_index
validate_required memory_control_group target_count f =
    validate_required_path "scheme filter cgroup path" f.cgroup_path
validate_required address target_count f = validate_address_range f.address_range
validate_required huge_page_size target_count f =
    invalid_if (is_none f.size_range) "huge-page-size filter" "requires a size range"
validate_required target target_count f = validate_target_index target_count f.target_index
validate_required probe_hits_weighted_sum target_count f =
    invalid_if (is_none f.probe_hits_weighted_sum_range) "probe hits weighted sum filter"
      "requires a weighted-sum range"
validate_required _ target_count f = done

unfoldable pub validate_in_layer : FilterConfig → FilterLayer → ℕ → Result (Unit {0})
validate_in_layer f layer target_count = do
  validate_token "scheme filter type" (kernel_name f.filter_type)
  validate_layer layer (handled_by_operations f.filter_type)
  validate_payload f.filter_type f
  validate_required f.filter_type target_count f
  if_some f.cgroup_path (validate_sysfs_string "scheme filter cgroup path")
  if_some f.target_index (validate_count "target filter index")

abbrev pub layer_differs : Option FilterLayer → FilterLayer → Bool
layer_differs none layer = false
layer_differs (some placement) layer = not (layer_eq placement layer)

unfoldable pub validate_for : FilterConfig → FilterLayer → ℕ → Result (Unit {0})
unfolding exact_layer
validate_for f layer target_count = do
  invalid_if (layer_differs (exact_layer f.placement) layer) "scheme filter placement"
      "does not match the directory layer selected for validation"
  validate_in_layer f layer target_count

abbrev pub layer_or_unified : Option FilterLayer → FilterLayer
layer_or_unified none = FilterLayer.unified
layer_or_unified (some layer) = layer

unfoldable pub validate : FilterConfig → ℕ → Result (Unit {0})
unfolding exact_layer
validate f target_count =
    validate_in_layer f (layer_or_unified (exact_layer f.placement)) target_count
