-- ===== src/Model/Context/Units.antt =====
-- The address units of a context, by its operation.
use damon_rs.Common.{
  ℕ, ◌*◌, ◌≤◌, ◌≡◌, ◌⊎◌, inl, inr, ◌↔◌, refl, List, All, arith, u64_max, Bool-cases, Bool-cases,
}
use damon_rs.Error.Checks.{Passes, each_iff}
use damon_rs.Config.AddressUnit.{AddressUnit, to_bytes}
use damon_rs.Abi.Operation.{
  Operation, virtual_address, fixed_virtual_address, physical_address, unknown,
}
use damon_rs.Model.Region.{InitialRegionConfig}
use damon_rs.Model.Target.{TargetConfig}
use damon_rs.Model.Align.{
  is_power_of_two, validate_address_unit_for_host, validate_scaled_region,
  validate_scaled_initial_regions,
}
use damon_rs.Model.Align.PowerOfTwo.{IsPowerOfTwo, is_power_of_two-IsPowerOfTwo}
use damon_rs.Model.Context.{validate_units}

-- Both ends have a byte address in `u64`.
abbrev pub HasBytes : AddressUnit → InitialRegionConfig → Type 0
HasBytes u r = (r.start * u.bytes ≤ u64_max) × (r.end * u.bytes ≤ u64_max)

-- Virtual addresses are bytes. A physical unit is at least a page or a power of two, and every
-- region has byte addresses.
abbrev pub HasUnits : ℕ → Operation → AddressUnit → List TargetConfig → Type 0
HasUnits page physical_address u ts =
    ((page ≤ u.bytes) ⊎ IsPowerOfTwo u.bytes) × All (λ t. All (HasBytes u) t.initial_regions) ts
HasUnits page (unknown name) u ts = Unit
HasUnits page _ u ts = u.bytes ≡ 1

scaled_iff :
    (u : AddressUnit) (r : InitialRegionConfig) → Passes (validate_scaled_region u r) ↔ HasBytes u r
unfolding validate_scaled_region to_bytes
scaled_iff u r = (λ h. ground arith, λ h. ground arith)

host_iff :
    (page : ℕ) (u : AddressUnit)
    → Passes (validate_address_unit_for_host page u) ↔ ((page ≤ u.bytes) ⊎ IsPowerOfTwo u.bytes)
unfolding validate_address_unit_for_host
host_iff page u =
    let power = is_power_of_two-IsPowerOfTwo u.bytes in
    (
      λ h. elim (Bool-cases (is_power_of_two u.bytes)) [
        | inl e ↦ inr (power.0 e)
        | inr e ↦ inl (ground arith)
      ],
      λ v. ground (arith, power.1),
    )

-- The check accepts exactly the unit one for virtual addresses, for physical memory a unit of at
-- least a page or a power of two with byte addresses in u64 for every region, and anything for an
-- unknown operation.
pub validate_units-HasUnits :
    (page : ℕ) (op : Operation) (u : AddressUnit) (ts : List TargetConfig)
    → Passes (validate_units page op u ts) ↔ HasUnits page op u ts
unfolding validate_units validate_scaled_initial_regions
validate_units-HasUnits page physical_address u ts =
    let host = host_iff page u in
    let scaled = each_iff (λ t. each_iff (scaled_iff u) t.initial_regions) ts in
    (
      λ h. (host.0 (ground arith), scaled.0 (ground arith)),
      λ v. ground (arith, host.1 v.0, scaled.1 v.1),
    )
validate_units-HasUnits page (unknown name) u ts = (λ h. tt, λ h. refl)
validate_units-HasUnits page virtual_address u ts = (λ h. ground arith, λ h. ground arith)
validate_units-HasUnits page fixed_virtual_address u ts = (λ h. ground arith, λ h. ground arith)
