-- ===== src/Model/Scheme/Weights.antt =====
-- The weighted migration destinations, and the loop that adds the weights.
use damon_rs.Common.{
  ℕ, ◌+◌, ◌≤◌, ◌<◌, ◌≡◌, ◌≢◌, ◌↔◌, refl, false, List, [], ◌∷◌, All, is_empty, length, arith,
  u32_max, i32_max,
}
use damon_rs.Error.{ok}
use damon_rs.Error.Checks.{Passes, >>-Passes, >>=-ok}
use damon_rs.Validate.{validate_count, kernel_index_max}
use damon_rs.Model.Scheme.{DestinationConfig, sum_weights, validate_destinations}

abbrev pub total_weight : List DestinationConfig → ℕ
total_weight [] = 0
total_weight (d ∷ ds) = d.weight + total_weight ds

abbrev pub FitsNode : DestinationConfig → Type 0
FitsNode d = d.node_id ≤ i32_max

-- Every partial sum fits where the whole sum does.
pub sum_weights-total_weight :
    (t n : ℕ) (ds : List DestinationConfig)
    → t ≤ u32_max
    → (sum_weights t ds ≡ ok n) ↔ (All FitsNode ds × (n ≡ t + total_weight ds) × (n ≤ u32_max))
unfolding sum_weights
sum_weights-total_weight t n [] b = (λ h. ground arith, λ h. ground arith)
sum_weights-total_weight t n (d ∷ ds) b =
    let rest = sum_weights-total_weight (t + d.weight) n ds in
    (
      λ h. ground (arith, λ (p : t + d.weight ≤ u32_max). (rest p).0),
      λ h. ground (arith, λ (p : t + d.weight ≤ u32_max). (rest p).1),
    )

-- The nodes fit the kernel's type, the total weight fits `u32`, and it is zero only for no
-- destination.
pub record IsValidDestinations (ds : List DestinationConfig) : Type 0 where
  pub count : length ds ≤ kernel_index_max
  pub nodes : All FitsNode ds
  pub total : total_weight ds ≤ u32_max
  pub weighted : ds ≢ [] → 0 < total_weight ds

pub not_empty : (ds : List DestinationConfig) → (is_empty ds ≡ false) ↔ (ds ≢ [])
not_empty [] = (λ h. cc, λ h. absurd (h refl))
not_empty (d ∷ ds) = (λ h e. cc, λ h. refl)

sum_returns :
    (ds : List DestinationConfig)
    → Passes (validate_destinations ds)
    → (n : ℕ) × (sum_weights 0 ds ≡ ok n)
unfolding validate_destinations
sum_returns ds h =
    let both = >>-Passes (validate_count "migration destination count" (length ds)) _ in
    let (n, e, _) = >>=-ok (sum_weights 0 ds) _ (both.0 h).1 in (n, e)

-- The validation accepts exactly the destination lists of at most i32::MAX elements whose nodes
-- fit i32 and whose weights have a sum that fits u32 and is positive if there are destinations.
pub validate_destinations-IsValidDestinations :
    (ds : List DestinationConfig) → Passes (validate_destinations ds) ↔ IsValidDestinations ds
unfolding validate_destinations validate_count
validate_destinations-IsValidDestinations ds = (
  λ h.
      let (n, e) = sum_returns ds h in
      let (nodes, total, fits) = (sum_weights-total_weight 0 n ds (omega arith)).0 e in
      record {
        count = ground arith;
        nodes = nodes;
        total = omega arith;
        weighted = λ some_destination. ground (arith, (not_empty ds).1);
      },
  λ v. ground (
    arith,
    (sum_weights-total_weight 0 (total_weight ds) ds (omega arith)).1
        (v.nodes, omega arith, v.total),
    v.weighted,
    (not_empty ds).0,
  ),
)
