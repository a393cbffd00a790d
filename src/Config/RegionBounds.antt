-- ===== src/Config/RegionBounds.antt =====
-- `RegionBounds` of src/config.rs: bounds for DAMON's adaptive number of monitoring regions.
use damon_rs.Common.{ℕ, ◌≤◌, ◌≡◌, ◌↔◌, arith, ltb}
use damon_rs.Error.{Result, ok, ◌>>◌, invalid_if}

pub record RegionBounds : Type 0 where
  pub min : ℕ
  pub max : ℕ

unfoldable pub new : ℕ → ℕ → Result RegionBounds
new min max = do
  invalid_if (ltb min 3) "minimum regions" "must be at least 3"
  invalid_if (ltb max min) "region bounds" "minimum must not exceed maximum"
  ok (record { min = min; max = max })

abbrev pub default : RegionBounds
default = record { min = 10; max = 1000 }

pub record IsValidBounds (b : RegionBounds) : Type 0 where
  pub enough : 3 ≤ b.min
  pub ordered : b.min ≤ b.max

-- Construction succeeds on exactly the valid bounds.
pub new-IsValidBounds :
    (m n : ℕ) (b : RegionBounds) → (new m n ≡ ok b) ↔ (IsValidBounds b × (b.min ≡ m) × (b.max ≡ n))
unfolding new
new-IsValidBounds m n b = (λ h. ground arith, λ h. ground arith)
