-- ===== src/Model/Filter/Valid.antt =====
-- What the filter validation accepts, type by type.
use damon_rs.Common.{
  ℕ, ◌≤◌, ◌<◌, ◌≡◌, ◌≢◌, ◌⊎◌, inl, ◌↔◌, refl, true, false, Option, none, some, arith,
}
use damon_rs.Error.{invalid_if}
use damon_rs.Error.Checks.{Passes, >>-Passes, invalid_if-Passes}
use damon_rs.Validate.{validate_count, validate_sysfs_string, kernel_index_max, if_some}
use damon_rs.Validate.Text.{
  IsToken, IsLine, IsPath, Each, if_some-Each, path-Each, validate_count-le, validate_token-IsToken,
  validate_sysfs_string-IsLine, validate_required_path-IsPath,
}
use damon_rs.Abi.SchemeFilterType.{
  SchemeFilterType, memory_control_group, huge_page_size, address, target, probe_hits_weighted_sum,
  unknown, kernel_name, handled_by_operations,
}
use damon_rs.Model.Layer.{FilterLayer, exact_layer}
use damon_rs.Model.Filter.{
  FilterConfig, validate_layer, validate_payload, validate_required, validate_in_layer,
  validate_address_range, validate_target_index, validate_for, layer_differs,
}

-- The filter carries the data of its type, valid, and no other data.
abbrev pub HasPayload : SchemeFilterType → FilterConfig → ℕ → Type 0
HasPayload memory_control_group f n =
    IsPath f.cgroup_path
    × (f.address_range ≡ none)
    × (f.size_range ≡ none)
    × (f.target_index ≡ none)
    × (f.probe_hits_weighted_sum_range ≡ none)
HasPayload address f n =
    (f.cgroup_path ≡ none)
    × ((start : ℕ) × (end : ℕ) × (f.address_range ≡ some (start, end)) × (start ≤ end))
    × (f.size_range ≡ none)
    × (f.target_index ≡ none)
    × (f.probe_hits_weighted_sum_range ≡ none)
HasPayload huge_page_size f n =
    (f.cgroup_path ≡ none)
    × (f.address_range ≡ none)
    × (f.size_range ≢ none)
    × (f.target_index ≡ none)
    × (f.probe_hits_weighted_sum_range ≡ none)
HasPayload target f n =
    (f.cgroup_path ≡ none)
    × (f.address_range ≡ none)
    × (f.size_range ≡ none)
    × ((index : ℕ) × (f.target_index ≡ some index) × (index < n) × (index ≤ kernel_index_max))
    × (f.probe_hits_weighted_sum_range ≡ none)
HasPayload probe_hits_weighted_sum f n =
    (f.cgroup_path ≡ none)
    × (f.address_range ≡ none)
    × (f.size_range ≡ none)
    × (f.target_index ≡ none)
    × (f.probe_hits_weighted_sum_range ≢ none)
HasPayload (unknown name) f n =
    Each f.cgroup_path IsLine
    × Each f.target_index (λ index. index ≤ kernel_index_max)
    × (f.probe_hits_weighted_sum_range ≡ none)
HasPayload _ f n =
    (f.cgroup_path ≡ none)
    × (f.address_range ≡ none)
    × (f.size_range ≡ none)
    × (f.target_index ≡ none)
    × (f.probe_hits_weighted_sum_range ≡ none)

-- The layer does not exclude the filter type.
abbrev pub Admits : FilterLayer → SchemeFilterType → Type 0
Admits FilterLayer.unified ty = Unit
Admits FilterLayer.core ty = handled_by_operations ty ≢ some true
Admits FilterLayer.operations ty = handled_by_operations ty ≢ some false

pub record IsValidFilter (f : FilterConfig) (layer : FilterLayer) (n : ℕ) : Type 0 where
  pub token : IsToken (kernel_name f.filter_type)
  pub admitted : Admits layer f.filter_type
  pub payload : HasPayload f.filter_type f n

validate_layer-Admits :
    (l : FilterLayer) (ty : SchemeFilterType)
    → Passes (validate_layer l (handled_by_operations ty)) ↔ Admits l ty
unfolding validate_layer
validate_layer-Admits FilterLayer.unified ty = (λ h. tt, λ h. refl)
validate_layer-Admits FilterLayer.core ty = (λ h. ground arith, λ h. ground arith)
validate_layer-Admits FilterLayer.operations ty = (λ h. ground arith, λ h. ground arith)

address_iff :
    (o : Option (ℕ × ℕ))
    → Passes (validate_address_range o)
      ↔ ((start : ℕ) × (end : ℕ) × (o ≡ some (start, end)) × (start ≤ end))
unfolding validate_address_range
address_iff none = (λ h. cc, λ h. cc (h.2))
address_iff (some (s, e)) = (λ h. (s, e, refl, ground arith), λ h. ground arith)

target_iff :
    (n : ℕ) (o : Option ℕ)
    → Passes (validate_target_index n o)
      ↔ ((index : ℕ) × (o ≡ some index) × (index < n) × (index ≤ kernel_index_max))
unfolding validate_target_index validate_count
target_iff n none = (λ h. cc, λ h. cc (h.1))
target_iff n (some i) = (λ h. (i, refl, ground arith, ground arith), λ h. ground arith)

-- The checks on the data, for a filter of the type `ty`.
PassData : SchemeFilterType → FilterConfig → ℕ → Type 0
PassData ty f n =
    Passes (validate_payload ty f)
    × Passes (validate_required ty n f)
    × Passes (if_some f.cgroup_path (validate_sysfs_string "scheme filter cgroup path"))
    × Passes (if_some f.target_index (validate_count "target filter index"))

module _ (f : FilterConfig) where
  line :
      Passes (if_some f.cgroup_path (validate_sysfs_string "scheme filter cgroup path"))
      ↔ Each f.cgroup_path IsLine
  line =
      if_some-Each _ IsLine (validate_sysfs_string-IsLine "scheme filter cgroup path") f.cgroup_path

  count :
      Passes (if_some f.target_index (validate_count "target filter index"))
      ↔ Each f.target_index (λ index. index ≤ kernel_index_max)
  count =
      if_some-Each _ (λ i. i ≤ kernel_index_max) (validate_count-le "target filter index")
        f.target_index

data_iff : (ty : SchemeFilterType) (f : FilterConfig) (n : ℕ) → PassData ty f n ↔ HasPayload ty f n
unfolding PassData validate_payload validate_required validate_count
data_iff memory_control_group f n =
    let path = validate_required_path-IsPath "scheme filter cgroup path" f.cgroup_path in
    (
      λ h. ground (arith, path.0 h.1),
      λ h. (ground arith, path.1 h.0, (line f).1 (path-Each f.cgroup_path h.0), ground arith),
    )
data_iff address f n =
    let range = address_iff f.address_range in
    (λ h. (ground arith, range.0 h.1, ground arith, ground arith, ground arith), λ h. ground arith)
data_iff target f n =
    let index = target_iff n f.target_index in
    (λ h. (ground arith, ground arith, ground arith, index.0 h.1, ground arith), λ h. ground arith)
data_iff (unknown name) f n = (
  λ h. ((line f).0 h.2, (count f).0 h.3, ground arith),
  λ h. (ground arith, refl, (line f).1 h.0, (count f).1 h.1),
)
data_iff _ f n = (λ h. ground arith, λ h. ground arith)

-- In a directory and for a number of targets, the validation accepts exactly the filters whose
-- type name is a token, whose type the directory admits, and which carry the data
-- of their type, valid, and no other data.
pub validate_in_layer-IsValidFilter :
    (f : FilterConfig) (l : FilterLayer) (n : ℕ)
    → Passes (validate_in_layer f l n) ↔ IsValidFilter f l n
unfolding validate_in_layer PassData
validate_in_layer-IsValidFilter f l n =
    let token = validate_token-IsToken "scheme filter type" (kernel_name f.filter_type) in
    let layer = validate_layer-Admits l f.filter_type in
    let payload = data_iff f.filter_type f n in
    (
      λ h. record {
        token = token.0 (ground arith);
        admitted = layer.0 (ground arith);
        payload = payload.0 (ground arith, ground arith, ground arith, ground arith);
      },
      λ v. ground (arith, token.1 v.token, layer.1 v.admitted, payload.1 v.payload),
    )

layer_differs_iff :
    (o : Option FilterLayer) (l : FilterLayer)
    → (layer_differs o l ≡ false) ↔ ((o ≡ none) ⊎ (o ≡ some l))
layer_differs_iff none l = (λ h. inl refl, λ h. refl)
layer_differs_iff (some k) l = (λ h. ground arith, λ h. ground arith)

-- For a directory and a number of targets, the validation accepts exactly the filters that ask
-- for this directory or for no exact one, whose type name is a token, whose type the directory
-- admits, and which carry the data of their type, valid, and no other data.
pub validate_for-IsValidFilter :
    (f : FilterConfig) (l : FilterLayer) (n : ℕ)
    → Passes (validate_for f l n) ↔ (
        ((exact_layer f.placement ≡ none) ⊎ (exact_layer f.placement ≡ some l))
        × IsValidFilter f l n)
unfolding validate_for
validate_for-IsValidFilter f l n =
    let inner = validate_in_layer-IsValidFilter f l n in
    let place = layer_differs_iff (exact_layer f.placement) l in
    let check =
      invalid_if (layer_differs (exact_layer f.placement) l) "scheme filter placement"
        "does not match the directory layer selected for validation" in
    let both = >>-Passes check (validate_in_layer f l n) in
    let guard =
      invalid_if-Passes (layer_differs (exact_layer f.placement) l) "scheme filter placement"
        "does not match the directory layer selected for validation" in
    (
      λ h. (place.0 (guard.0 (both.0 h).0), inner.0 (both.0 h).1),
      λ h. both.1 (guard.1 (place.1 h.0), inner.1 h.1),
    )
