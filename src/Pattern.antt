-- ===== src/Pattern.antt =====
-- The ranges and the access pattern of src/sysfs/abi.rs.
pub mod Normalize
use damon_rs.Common.{ℕ, Bool, true, false, ◌&&◌, ◌||◌, ◌==◌, ltb, u32_max, u64_max, if◌then◌else◌}
use damon_rs.Error.{Result, ok, err, ◌>>=◌, ◌>>◌, invalid_if}
use damon_rs.Config.AddressUnit.{AddressUnit, to_bytes}

pub record RegionSizeRange : Type 0 where
  pub min : ℕ
  pub max : ℕ

pub record ByteSizeRange : Type 0 where
  pub min : ℕ
  pub max : ℕ

pub record ProbeHitsWeightedSumRange : Type 0 where
  pub min : ℕ
  pub max : ℕ

pub record AccessCountRange : Type 0 where
  pub min : ℕ
  pub max : ℕ

pub record AgeRange : Type 0 where
  pub min : ℕ
  pub max : ℕ

unfoldable pub region_size_range : ℕ → ℕ → Result RegionSizeRange
region_size_range min max = do
  invalid_if (ltb max min) "region size range" "minimum must not exceed maximum"
  ok (record { min = min; max = max })

unfoldable pub byte_size_range : ℕ → ℕ → Result ByteSizeRange
byte_size_range min max = do
  invalid_if (ltb max min) "byte size range" "minimum must not exceed maximum"
  ok (record { min = min; max = max })

unfoldable pub probe_hits_weighted_sum_range : ℕ → ℕ → Result ProbeHitsWeightedSumRange
probe_hits_weighted_sum_range min max = do
  invalid_if (ltb max min) "probe hits weighted sum range" "minimum must not exceed maximum"
  ok (record { min = min; max = max })

unfoldable pub access_count_range : ℕ → ℕ → Result AccessCountRange
access_count_range min max = do
  invalid_if (ltb max min) "access count range" "minimum must not exceed maximum"
  ok (record { min = min; max = max })

unfoldable pub age_range : ℕ → ℕ → Result AgeRange
age_range min max = do
  invalid_if (ltb max min) "age range" "minimum must not exceed maximum"
  ok (record { min = min; max = max })

unfoldable pub min_bytes : RegionSizeRange → AddressUnit → Result ℕ
unfolding to_bytes
min_bytes range unit = to_bytes unit range.min

unfoldable pub max_bytes : RegionSizeRange → AddressUnit → Result ℕ
unfolding to_bytes
max_bytes range unit = to_bytes unit range.max

pub record AccessPattern : Type 0 where
  pub size : RegionSizeRange
  pub accesses : AccessCountRange
  pub age : AgeRange

-- The derived `==` of the ranges and the pattern.
abbrev pub size_eq : RegionSizeRange → RegionSizeRange → Bool
size_eq a b = a.min == b.min && a.max == b.max

abbrev pub accesses_eq : AccessCountRange → AccessCountRange → Bool
accesses_eq a b = a.min == b.min && a.max == b.max

abbrev pub age_eq : AgeRange → AgeRange → Bool
age_eq a b = a.min == b.min && a.max == b.max

abbrev pub pattern_eq : AccessPattern → AccessPattern → Bool
pattern_eq a b = size_eq a.size b.size && (accesses_eq a.accesses b.accesses && age_eq a.age b.age)

-- A 32-bit kernel reports the widest `u64` size as the widest `u32`.
unfoldable pub equivalent_after_kernel_normalization : AccessPattern → AccessPattern → Bool
equivalent_after_kernel_normalization requested observed =
    if pattern_eq requested observed
    then true
    else requested.size.min == observed.size.min
      && (requested.size.max == u64_max
          && (observed.size.max == u32_max
              && (accesses_eq requested.accesses observed.accesses
                  && age_eq requested.age observed.age)))

unfoldable pub normalize_kernel_width : AccessPattern → AccessPattern → AccessPattern
unfolding equivalent_after_kernel_normalization
normalize_kernel_width requested observed =
    if equivalent_after_kernel_normalization requested observed
    then record requested { size = observed.size }
    else requested
