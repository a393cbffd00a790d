-- ===== src/Model/Region/Covering.antt =====
-- What the two conversions from byte ranges give.
use damon_rs.Common.{ℕ, ◌+◌, ◌*◌, ◌≤◌, ◌<◌, ◌≡◌, arith, u64_max}
use damon_rs.Error.{ok}
use damon_rs.Config.AddressUnit.{
  AddressUnit, to_bytes, IsValidUnit, floor_units_bounds, ceil_units_bounds, floor_units,
  ceil_units, to_bytes-units_from_bytes_exact, units_from_bytes_exact,
}
use damon_rs.Model.Region.{InitialRegionConfig, from_byte_range_exact, from_byte_range_covering}
use damon_rs.Error.Checks.{>>=-ok}
use native.Mathlib.Nat.{lt_of_mul-lt-mul_right}

-- The region covers the byte range, and every region of whole units that covers it covers this one.
pub record IsLeastCover (s e : ℕ) (u : AddressUnit) (r : InitialRegionConfig) : Type 0 where
  pub not_empty : r.start < r.end
  pub covers_start : r.start * u.bytes ≤ s
  pub covers_end : e ≤ r.end * u.bytes
  pub start_greatest : s < (r.start + 1) * u.bytes
  pub end_least : (n : ℕ) → e ≤ n * u.bytes → r.end ≤ n

floor-lt-ceil :
    (u : AddressUnit) (s e : ℕ) → IsValidUnit u → s < e → floor_units u s < ceil_units u e
floor-lt-ceil u s e v h =
    lt_of_mul-lt-mul_right u.bytes
      (omega (arith, floor_units_bounds u s v, (ceil_units_bounds u e 0 v).0))

-- For a valid unit, every non-empty byte range has a covering region, and it is the least region
-- of whole units that covers the range.
pub from_byte_range_covering-IsLeastCover :
    (s e : ℕ) (u : AddressUnit)
    → IsValidUnit u
    → s < e
    → (r : InitialRegionConfig) × (from_byte_range_covering s e u ≡ ok r) × IsLeastCover s e u r
unfolding from_byte_range_covering
from_byte_range_covering-IsLeastCover s e u v h =
    let lt = floor-lt-ceil u s e v h in
    (
      record { start = floor_units u s; end = ceil_units u e },
      ground arith,
      record {
        not_empty = lt;
        covers_start = (floor_units_bounds u s v).0;
        covers_end = (ceil_units_bounds u e 0 v).0;
        start_greatest = (floor_units_bounds u s v).1;
        end_least = λ n. (ceil_units_bounds u e n v).1;
      },
    )

-- Where the exact conversion of a byte range with ends in u64 gives a region, the region is not
-- empty and its ends convert back to the bytes.
pub from_byte_range_exact_bytes :
    (s e : ℕ) (u : AddressUnit) (r : InitialRegionConfig)
    → s ≤ u64_max
    → e ≤ u64_max
    → from_byte_range_exact s e u ≡ ok r
    → (r.start < r.end) × (to_bytes u r.start ≡ ok s) × (to_bytes u r.end ≡ ok e)
unfolding from_byte_range_exact
from_byte_range_exact_bytes s e u r hs he h =
    let (a, ea, h') = >>=-ok (units_from_bytes_exact u s) _ h in
    let (b, eb, h'') = >>=-ok (units_from_bytes_exact u e) _ h' in
    (
      ground arith,
      ground (arith, to_bytes-units_from_bytes_exact u s a hs ea),
      ground (arith, to_bytes-units_from_bytes_exact u e b he eb),
    )
