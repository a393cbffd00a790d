-- ===== src/Model/Target/Order.antt =====
-- The order of the initial regions of a target.
use damon_rs.Common.{
  ℕ, ◌≤◌, ◌<◌, ◌↔◌, refl, Option, none, some, List, [], ◌∷◌, All, Pairwise, length, arith,
}
use damon_rs.Error.Checks.{Passes, >>-Passes}
use damon_rs.Validate.{validate_count, kernel_index_max}
use damon_rs.Validate.Text.{validate_count-le}
use damon_rs.Model.Region.{InitialRegionConfig}
use damon_rs.Model.Target.{TargetConfig, validate, validate_regions}

abbrev pub NonEmpty : InitialRegionConfig → Type 0
NonEmpty r = r.start < r.end

abbrev pub Before : InitialRegionConfig → InitialRegionConfig → Type 0
Before a b = a.end ≤ b.start

abbrev After : Option ℕ → InitialRegionConfig → Type 0
After none r = Unit
After (some e) r = e ≤ r.start

abbrev pub IsOrdered : List InitialRegionConfig → Type 0
IsOrdered rs = All NonEmpty rs × Pairwise Before rs

After-head :
    (p : Option ℕ) (r : InitialRegionConfig) (rs : List InitialRegionConfig)
    → NonEmpty r
    → After p r
    → All (Before r) rs
    → All (After p) rs
After-head none r [] n a h = tt
After-head none r (x ∷ rs) n a h = (tt, After-head none r rs n a h.1)
After-head (some e) r [] n a h = tt
After-head (some e) r (x ∷ rs) n a h = (omega arith, After-head (some e) r rs n a h.1)

validate_regions-step :
    (p : Option ℕ) (r : InitialRegionConfig) (rs : List InitialRegionConfig)
    → Passes (validate_regions p (r ∷ rs))
      ↔ (NonEmpty r × After p r × Passes (validate_regions (some r.end) rs))
unfolding validate_regions
validate_regions-step none r rs = (λ h. ground arith, λ h. ground arith)
validate_regions-step (some e) r rs = (λ h. ground arith, λ h. ground arith)

validate_regions_sound :
    (p : Option ℕ) (rs : List InitialRegionConfig)
    → Passes (validate_regions p rs)
    → All (After p) rs × IsOrdered rs
validate_regions_sound p [] h = (tt, (tt, tt))
validate_regions_sound p (r ∷ rs) h =
    let (n, a, t) = (validate_regions-step p r rs).0 h in
    let (b, o) = validate_regions_sound (some r.end) rs t in
    ((a, After-head p r rs n a b), ((n, o.0), (b, o.1)))

validate_regions_complete :
    (p : Option ℕ) (rs : List InitialRegionConfig)
    → All (After p) rs
    → IsOrdered rs
    → Passes (validate_regions p rs)
unfolding validate_regions
validate_regions_complete p [] a o = refl
validate_regions_complete p (r ∷ rs) a o =
    (validate_regions-step p r rs).1
      (o.0.0, a.0, validate_regions_complete (some r.end) rs o.1.0 (o.0.1, o.1.1))

After-none : (rs : List InitialRegionConfig) → All (After none) rs
After-none [] = tt
After-none (r ∷ rs) = (tt, After-none rs)

-- The validation accepts exactly the targets with at most i32::MAX initial regions, none empty,
-- each ending no later than any later one starts.
pub validate-IsOrdered :
    (t : TargetConfig)
    → Passes (validate t)
      ↔ ((length t.initial_regions ≤ kernel_index_max) × IsOrdered t.initial_regions)
unfolding validate
validate-IsOrdered t =
    let count = validate_count-le "initial region count" (length t.initial_regions) in
    let rest = validate_regions none t.initial_regions in
    let both = >>-Passes (validate_count "initial region count" (length t.initial_regions)) rest in
    (
      λ h. let (c, r) = both.0 h in (count.0 c, (validate_regions_sound none _ r).1),
      λ h. both.1 (count.1 h.0, validate_regions_complete none _ (After-none _) h.1),
    )
