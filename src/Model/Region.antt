-- ===== src/Model/Region.antt =====
-- `InitialRegionConfig` of src/sysfs/configuration/model/target.rs.
pub mod Covering
use damon_rs.Common.{ℕ, Bool, true, false, leb}
use damon_rs.Error.{Result, ok, err, ◌>>=◌, ◌>>◌, invalid_if}
use damon_rs.Config.AddressUnit.{AddressUnit, units_from_bytes_exact, floor_units, ceil_units}

-- Inclusive start and exclusive end, in DAMON core address units.
pub record InitialRegionConfig : Type 0 where
  pub start : ℕ
  pub end : ℕ

unfoldable pub new : ℕ → ℕ → Result InitialRegionConfig
new start end = do
  invalid_if (leb end start) "initial region" "start must be less than the exclusive end"
  ok (record { start = start; end = end })

unfoldable pub from_byte_range_exact : ℕ → ℕ → AddressUnit → Result InitialRegionConfig
unfolding new
from_byte_range_exact start_bytes end_bytes unit = do
  start ← units_from_bytes_exact unit start_bytes
  end ← units_from_bytes_exact unit end_bytes
  new start end

unfoldable pub from_byte_range_covering : ℕ → ℕ → AddressUnit → Result InitialRegionConfig
unfolding new
from_byte_range_covering start_bytes end_bytes unit = do
  invalid_if (leb end_bytes start_bytes) "initial byte region"
      "start must be less than the exclusive end"
  new (floor_units unit start_bytes) (ceil_units unit end_bytes)
