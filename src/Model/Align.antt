-- ===== src/Model/Align.antt =====
-- The address-unit and minimum-region checks of src/sysfs/configuration/helpers.rs. `page` is the
-- host's page size, which `host_page_size` asks the system for.
pub mod Rounding
pub mod NoOverlap
pub mod PowerOfTwo
use damon_rs.Common.{
  ℕ, ◌+◌, ◌-◌, ◌/◌, ◌%◌, ◌^◌, Bool, true, false, not, ◌&&◌, ◌||◌, Option, none, some, List, [], ◌∷◌,
  zero, suc, leb, ltb, ◌==◌, fit, max, u64_max, if◌then◌else◌,
}
use damon_rs.Error.{Result, ok, err, ◌>>=◌, ◌>>◌, done, ok_or, invalid_if, invalid_configuration}
use damon_rs.Error.Checks.{each}
use damon_rs.Abi.Operation.{
  Operation, virtual_address, fixed_virtual_address, physical_address, unknown,
}
use damon_rs.Config.AddressUnit.{AddressUnit, to_bytes}
use damon_rs.Model.Region.{InitialRegionConfig}
use damon_rs.Model.Target.{TargetConfig, overlaps}

-- Some power of two below `2 ^ k` is the number.
power_below : ℕ → ℕ → Bool
power_below zero n = false
power_below (suc k) n = n == 2 ^ k || power_below k n

-- `u64::is_power_of_two`
unfoldable pub is_power_of_two : ℕ → Bool
unfolding power_below
is_power_of_two n = power_below 64 n

unfoldable pub validate_address_unit_for_host : ℕ → AddressUnit → Result (Unit {0})
validate_address_unit_for_host page unit =
    invalid_if (ltb unit.bytes page && not (is_power_of_two unit.bytes)) "address unit"
      "units smaller than the host page size must be a power of two"

-- Both ends of the region, and so all between, have a byte address.
unfoldable pub validate_scaled_region : AddressUnit → InitialRegionConfig → Result (Unit {0})
validate_scaled_region unit region = do
  start ← to_bytes unit region.start
  end ← to_bytes unit region.end
  done

unfoldable pub validate_scaled_initial_regions : List TargetConfig → AddressUnit → Result (Unit {0})
validate_scaled_initial_regions targets unit =
    each (λ target. each (validate_scaled_region unit) target.initial_regions) targets

unfoldable pub minimum_region_units : ℕ → Operation → AddressUnit → Option ℕ
minimum_region_units page virtual_address unit = some page
minimum_region_units page fixed_virtual_address unit = some page
minimum_region_units page physical_address unit = some (max (page / unit.bytes) 1)
minimum_region_units page (unknown name) unit = none

unfoldable pub aligned_start : ℕ → ℕ → ℕ
aligned_start alignment start = start - start % alignment

unfoldable pub aligned_end : ℕ → ℕ → Result ℕ
aligned_end alignment end =
    let remainder = end % alignment in
    if remainder == 0
    then ok end
    else ok_or (fit u64_max (end + (alignment - remainder))) (
        invalid_configuration "initial region"
          "end overflows after kernel minimum-region alignment")

-- The inner loop, with its `previous_end`.
unfoldable pub validate_aligned_regions :
    ℕ → Option ℕ → List InitialRegionConfig → Result (Unit {0})
unfolding aligned_start aligned_end
validate_aligned_regions alignment previous_end [] = done
validate_aligned_regions alignment previous_end (region ∷ regions) = do
  end ← aligned_end alignment region.end
  invalid_if (overlaps previous_end (aligned_start alignment region.start)) "initial regions"
      "regions overlap after kernel minimum-region alignment"
  validate_aligned_regions alignment (some end) regions

unfoldable pub validate_kernel_aligned_initial_regions :
    List TargetConfig → Option ℕ → Result (Unit {0})
validate_kernel_aligned_initial_regions targets none = done
validate_kernel_aligned_initial_regions targets (some alignment) =
    each (λ target. validate_aligned_regions alignment none target.initial_regions) targets
