-- ===== src/Config/AddressUnit.antt =====
-- `AddressUnit` of src/config.rs: bytes per DAMON core address unit.
use damon_rs.Common.{
  ℕ, ◌+◌, ◌*◌, ◌/◌, ◌%◌, ◌≤◌, ◌<◌, ◌≡◌, ◌≢◌, arith, ◌==◌, fit, u64_max, if◌then◌else◌,
}
use native.Mathlib.Nat.{div-add-mod', lt_of_mul-lt-mul_right, le_of_mul-le-mul_right}
use damon_rs.Error.{
  Result, ok, err, ◌>>◌, invalid_if, ok_or, address_conversion_overflow, address_conversion_inexact,
}

pub record AddressUnit : Type 0 where
  pub bytes : ℕ

-- `AddressUnit::ONE`
abbrev pub one : AddressUnit
one = record { bytes = 1 }

unfoldable pub new : ℕ → Result AddressUnit
new bytes = do
  invalid_if (bytes == 0) "address unit" "must be greater than zero"
  ok (record { bytes = bytes })

unfoldable pub to_bytes : AddressUnit → ℕ → Result ℕ
to_bytes unit units =
    ok_or (fit u64_max (units * unit.bytes)) (address_conversion_overflow units unit.bytes)

unfoldable pub units_from_bytes_exact : AddressUnit → ℕ → Result ℕ
units_from_bytes_exact unit bytes =
    if bytes % unit.bytes == 0
    then ok (bytes / unit.bytes)
    else err (address_conversion_inexact bytes unit.bytes)

unfoldable pub floor_units : AddressUnit → ℕ → ℕ
floor_units unit bytes = bytes / unit.bytes

unfoldable pub ceil_units : AddressUnit → ℕ → ℕ
ceil_units unit bytes =
    let quotient = bytes / unit.bytes in if bytes % unit.bytes == 0 then quotient else quotient + 1

-- What `new` gives: a unit that is not zero, and fits `u64`.
pub record IsValidUnit (unit : AddressUnit) : Type 0 where
  pub positive : 0 < unit.bytes
  pub fits : unit.bytes ≤ u64_max

pub new-IsValidUnit : (n : ℕ) (u : AddressUnit) → n ≤ u64_max → new n ≡ ok u → IsValidUnit u
unfolding new
new-IsValidUnit n u h e = ground arith

-- A byte count in u64 that converts exactly to units converts back to itself, without overflow.
pub to_bytes-units_from_bytes_exact :
    (u : AddressUnit) (b n : ℕ)
    → b ≤ u64_max
    → units_from_bytes_exact u b ≡ ok n
    → to_bytes u n ≡ ok b
unfolding to_bytes units_from_bytes_exact
to_bytes-units_from_bytes_exact u b n h e = ground (arith, div-add-mod' b u.bytes)

-- For a valid unit, a count of units that converts to bytes converts back to itself, exactly.
pub units_from_bytes_exact-to_bytes :
    (u : AddressUnit) (b n : ℕ)
    → IsValidUnit u
    → to_bytes u n ≡ ok b
    → units_from_bytes_exact u b ≡ ok n
unfolding to_bytes units_from_bytes_exact
units_from_bytes_exact-to_bytes u b n v e = grind arith

pub floor_units_bounds :
    (u : AddressUnit) (b : ℕ)
    → IsValidUnit u
    → (floor_units u b * u.bytes ≤ b) × (b < (floor_units u b + 1) * u.bytes)
unfolding floor_units
floor_units_bounds u b v = grind arith

div-lt_of_mod : (b n u : ℕ) → b ≤ n * u → b % u ≢ 0 → b / u < n
div-lt_of_mod b n u h r = lt_of_mul-lt-mul_right u (omega (arith, div-add-mod' b u))

div-le_of_mul : (b n u : ℕ) → 0 < u → b ≤ n * u → b % u ≡ 0 → b / u ≤ n
div-le_of_mul b n u p h r = le_of_mul-le-mul_right (omega (arith, div-add-mod' b u)) p

-- For a valid unit, the rounded-up count of units covers the bytes, and every count that covers
-- them is at least as large.
pub ceil_units_bounds :
    (u : AddressUnit) (b n : ℕ)
    → IsValidUnit u
    → (b ≤ ceil_units u b * u.bytes) × (b ≤ n * u.bytes → ceil_units u b ≤ n)
unfolding ceil_units
ceil_units_bounds u b n v =
    (grind arith, λ h. ground (arith, div-lt_of_mod b n u.bytes, div-le_of_mul b n u.bytes))

-- `quotient + 1` does not overflow `u64`.
pub ceil_units-le : (u : AddressUnit) (b : ℕ) → IsValidUnit u → ceil_units u b ≤ b
ceil_units-le u b v = (ceil_units_bounds u b b v).1 (grind arith)
