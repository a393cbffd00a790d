-- ===== src/Model/Context/Valid.antt =====
-- What the context validation accepts.
use damon_rs.Common.{
  ℕ, ◌≤◌, ◌<◌, ◌≡◌, ◌↔◌, refl, Option, none, some, List, [], ◌∷◌, All, length, arith, u64_max,
}
use damon_rs.Error.Checks.{Passes, each_iff}
use damon_rs.Validate.{kernel_index_max}
use damon_rs.Validate.Text.{IsToken, validate_count-le, validate_token-IsToken}
use damon_rs.Config.AddressUnit.{AddressUnit}
use damon_rs.Abi.Operation.{Operation, kernel_name}
use damon_rs.Model.IntervalsGoal.{
  IsValidIntervalsGoal as IsValidGoal, validate_for-IsValidIntervalsGoal as goal_iff,
}
use damon_rs.Model.Probe.{IsValidProbe, validate-IsValidProbe as probe_iff}
use damon_rs.Model.Sample.{
  IsValidAttributes, IsValidControl, validate_attributes-IsValidAttributes,
  validate_control-IsValidControl,
}
use damon_rs.Model.Scheme.Valid.{IsValidScheme, validate_for-IsValidScheme as scheme_iff}
use damon_rs.Model.Region.{InitialRegionConfig}
use damon_rs.Model.Target.{TargetConfig}
use damon_rs.Model.Target.Order.{NonEmpty, IsOrdered, validate-IsOrdered}
use damon_rs.Model.Align.{minimum_region_units, validate_kernel_aligned_initial_regions}
use damon_rs.Model.Align.NoOverlap.{IsSeparated, InRange, validate_kernel_aligned-IsSeparated}
use damon_rs.Model.Context.{ContextConfig, validate}
use damon_rs.Model.Context.Units.{HasUnits, validate_units-HasUnits}

-- At most `i32::MAX` regions, not empty, in ascending order and without overlap.
abbrev pub IsValidTarget : TargetConfig → Type 0
IsValidTarget t = (length t.initial_regions ≤ kernel_index_max) × IsOrdered t.initial_regions

-- Where the operation has a minimum region, the regions stay apart when the kernel widens them.
abbrev pub IsAligned : Option ℕ → List TargetConfig → Type 0
IsAligned none ts = Unit
IsAligned (some a) ts = All (λ (t : TargetConfig). IsSeparated a t.initial_regions) ts

-- The ends of the regions are `u64` values.
abbrev pub EndsFit : List TargetConfig → Type 0
EndsFit =
    All λ (t : TargetConfig). All (λ (r : InitialRegionConfig). r.end ≤ u64_max) t.initial_regions

pub record IsValidContext (page : ℕ) (c : ContextConfig) : Type 0 where
  pub token : IsToken (kernel_name c.operation)
  pub target_count : length c.targets ≤ kernel_index_max
  pub scheme_count : length c.schemes ≤ kernel_index_max
  pub goal : IsValidGoal c.intervals_goal c.intervals
  pub attributes : IsValidAttributes c.operation_attributes
  pub control : IsValidControl c.sample_control
  pub probe_count : length c.probes ≤ kernel_index_max
  pub probes : All IsValidProbe c.probes
  pub targets : All IsValidTarget c.targets
  pub units : HasUnits page c.operation c.address_unit c.targets
  pub aligned : IsAligned (minimum_region_units page c.operation c.address_unit) c.targets
  pub schemes : All (λ s. IsValidScheme s (length c.targets)) c.schemes

in_range :
    (rs : List InitialRegionConfig)
    → All NonEmpty rs
    → All (λ (r : InitialRegionConfig). r.end ≤ u64_max) rs
    → All InRange rs
in_range [] n e = tt
in_range (r ∷ rs) n e = ((n.0, e.0), in_range rs n.1 e.1)

targets-InRange :
    (ts : List TargetConfig)
    → All IsValidTarget ts
    → EndsFit ts
    → All (λ (t : TargetConfig). All InRange t.initial_regions) ts
targets-InRange [] v e = tt
targets-InRange (t ∷ ts) v e = (in_range t.initial_regions v.0.1.0 e.0, targets-InRange ts v.1 e.1)

minimum_positive :
    (page : ℕ) (op : Operation) (u : AddressUnit) (a : ℕ)
    → 0 < page
    → minimum_region_units page op u ≡ some a
    → 0 < a
unfolding minimum_region_units
minimum_positive page op u a p e = ground arith

separated_iff :
    (m : Option ℕ) (ts : List TargetConfig)
    → ((a : ℕ) → m ≡ some a → 0 < a)
    → EndsFit ts
    → All IsValidTarget ts
    → Passes (validate_kernel_aligned_initial_regions ts m) ↔ IsAligned m ts
unfolding validate_kernel_aligned_initial_regions
separated_iff none ts pos e v = (λ h. tt, λ h. refl)
separated_iff (some a) ts pos e v =
    validate_kernel_aligned-IsSeparated a ts (pos a refl) (targets-InRange ts v e)

-- For a positive page size and regions whose ends fit u64, the validation accepts exactly the
-- contexts whose parts are all valid: names, counts, goal, sampling, probes, ordered regions,
-- units with byte addresses, regions that stay apart when the kernel widens them, and schemes.
pub validate-IsValidContext :
    (page : ℕ) (c : ContextConfig)
    → 0 < page
    → EndsFit c.targets
    → Passes (validate page c) ↔ IsValidContext page c
unfolding validate
validate-IsValidContext page c pos ends =
    let token = validate_token-IsToken "monitoring operation" (kernel_name c.operation) in
    let target_count = validate_count-le "target count" (length c.targets) in
    let scheme_count = validate_count-le "scheme count" (length c.schemes) in
    let goal = goal_iff c.intervals_goal c.intervals in
    let attributes = validate_attributes-IsValidAttributes c.operation_attributes in
    let control = validate_control-IsValidControl c.sample_control in
    let probe_count = validate_count-le "monitoring probe count" (length c.probes) in
    let probes = each_iff probe_iff c.probes in
    let targets = each_iff validate-IsOrdered c.targets in
    let units = validate_units-HasUnits page c.operation c.address_unit c.targets in
    let aligned =
      separated_iff (minimum_region_units page c.operation c.address_unit) c.targets
        (λ a. minimum_positive page c.operation c.address_unit a pos) ends in
    let schemes = each_iff (λ s. scheme_iff s (length c.targets)) c.schemes in
    (
      λ h. record {
        token = token.0 (ground arith);
        target_count = target_count.0 (ground arith);
        scheme_count = scheme_count.0 (ground arith);
        goal = goal.0 (ground arith);
        attributes = attributes.0 (ground arith);
        control = control.0 (ground arith);
        probe_count = probe_count.0 (ground arith);
        probes = probes.0 (ground arith);
        targets = targets.0 (ground arith);
        units = units.0 (ground arith);
        aligned = (aligned (targets.0 (ground arith))).0 (ground arith);
        schemes = schemes.0 (ground arith);
      },
      λ v. ground (
        arith,
        token.1 v.token,
        target_count.1 v.target_count,
        scheme_count.1 v.scheme_count,
        goal.1 v.goal,
        attributes.1 v.attributes,
        control.1 v.control,
        probe_count.1 v.probe_count,
        probes.1 v.probes,
        targets.1 v.targets,
        units.1 v.units,
        (aligned v.targets).1 v.aligned,
        schemes.1 v.schemes,
      ),
    )
