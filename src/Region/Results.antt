-- ===== src/Region/Results.antt =====
-- What the accessors of a region give back, and what the completeness of a snapshot means.
use damon_rs.Common.{
  ℕ, suc, ◌+◌, ◌-◌, ◌*◌, ◌<◌, ◌≤◌, ◌≡◌, ◌↔◌, ap, leb, refl, false, Option, none, some, List, [],
  ◌∷◌, map, zip, length, arith,
}
use native.Mathlib.Nat.{mul-sub, mul-le-mul_right}
use damon_rs.Error.{ok}
use damon_rs.Config.AddressUnit.{to_bytes}
use damon_rs.Region.{
  RawRegion, RawSnapshot, Region, index_of, hits_of, probe_hit, inline_probe_hits,
  probe_hits_from_kernel, indices, hits, raw_region_from_kernel, len_units, probe_results, complete,
  partial, inconsistent, unverifiable, completeness, start_bytes, end_bytes, len_bytes,
}

zip-parts : (vs : List (ℕ × ℕ)) → zip (map index_of vs) (map hits_of vs) ≡ vs
zip-parts [] = refl
zip-parts (v ∷ vs) = ap (λ (rest : List (ℕ × ℕ)). v ∷ rest) (zip-parts vs)

big : (n : ℕ) → leb (suc (suc (suc (suc (suc n))))) inline_probe_hits ≡ false
big n = ground arith

-- Inline or on the heap, the probe results are the ones the kernel gave.
pub probes_round_trip :
    (vs : List (ℕ × ℕ))
    → zip (indices (probe_hits_from_kernel vs)) (hits (probe_hits_from_kernel vs)) ≡ vs
unfolding indices hits probe_hits_from_kernel
probes_round_trip [] = refl
probes_round_trip (a ∷ []) = refl
probes_round_trip (a ∷ b ∷ []) = refl
probes_round_trip (a ∷ b ∷ c ∷ []) = refl
probes_round_trip (a ∷ b ∷ c ∷ d ∷ []) = refl
probes_round_trip (a ∷ b ∷ c ∷ d ∷ e ∷ vs) =
    rw (big (length vs)) (zip-parts (a ∷ b ∷ c ∷ d ∷ e ∷ vs))

-- A region made from what the kernel reports has its start, its end at its start plus its length,
-- its counters, and exactly the probe results that were reported, few or many.
pub raw_region_from_kernel_lem :
    (start end accesses age : ℕ) (passed : Option ℕ) (vs : List (ℕ × ℕ)) (r : RawRegion)
    → raw_region_from_kernel start end accesses age passed vs ≡ ok r
    → (start + len_units r ≡ end)
      × (r.start ≡ start)
      × (r.nr_accesses ≡ accesses)
      × (r.age ≡ age)
      × (r.filter_passed_units ≡ passed)
      × (probe_results r ≡ map probe_hit vs)
unfolding raw_region_from_kernel len_units probe_results
raw_region_from_kernel_lem start end accesses age passed vs r h =
    let hits : r.probe_hits ≡ probe_hits_from_kernel vs = ground arith in
    (
      ground arith,
      ground arith,
      ground arith,
      ground arith,
      ground arith,
      rw (hits, probes_round_trip vs) refl,
    )

-- Where the ends of a region, in order, convert to bytes, its length converts to bytes, without
-- overflow, and is the difference of the ends.
pub len_bytes-ends :
    (region : Region) (s e : ℕ)
    → region.raw.start ≤ region.raw.end
    → start_bytes region ≡ ok s
    → end_bytes region ≡ ok e
    → (s ≤ e) × (len_bytes region ≡ ok (e - s))
unfolding start_bytes end_bytes len_bytes len_units to_bytes
len_bytes-ends region s e ordered hs he =
    let u = region.address_unit.bytes in
    let scaled : u * (region.raw.end - region.raw.start)
        ≡ u * region.raw.end - u * region.raw.start =
      mul-sub u region.raw.end region.raw.start in
    let ends : region.raw.start * u ≤ region.raw.end * u = mul-le-mul_right u ordered in
    (ground arith, ground (arith, scaled))

-- A snapshot is complete, partial or inconsistent exactly where the reported total is equal to,
-- above or below the materialized one, with those two totals, and unverifiable exactly where no
-- total is reported.
pub completeness_lem :
    (s : RawSnapshot) (reported materialized : ℕ)
    → ((completeness s ≡ complete) ↔ (s.reported_total_units ≡ some s.materialized_total_units))
      × ((completeness s ≡ partial reported materialized) ↔ (
          (s.reported_total_units ≡ some reported)
          × (s.materialized_total_units ≡ materialized)
          × (materialized < reported)))
      × ((completeness s ≡ inconsistent reported materialized) ↔ (
          (s.reported_total_units ≡ some reported)
          × (s.materialized_total_units ≡ materialized)
          × (reported < materialized)))
      × ((completeness s ≡ unverifiable) ↔ (s.reported_total_units ≡ none))
unfolding completeness
completeness_lem s reported materialized = (
  (λ h. ground arith, λ h. ground arith),
  (λ h. ground arith, λ h. ground arith),
  (λ h. ground arith, λ h. ground arith),
  (λ h. ground arith, λ h. ground arith),
)
