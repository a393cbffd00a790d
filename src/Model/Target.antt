-- ===== src/Model/Target.antt =====
-- `TargetConfig` of src/sysfs/configuration/model/target.rs.
pub mod Order
use damon_rs.Common.{ℕ, Bool, true, false, Option, none, some, List, [], ◌∷◌, leb, ltb, length}
use damon_rs.Error.{Result, ok, err, ◌>>◌, done, invalid_if}
use damon_rs.Validate.{validate_count}
use damon_rs.Config.Pid.{Pid}
use damon_rs.Model.Region.{InitialRegionConfig}

pub record TargetConfig : Type 0 where
  pub pid : Option Pid
  pub obsolete : Bool
  pub initial_regions : List InitialRegionConfig

abbrev pub for_pid : Pid → TargetConfig
for_pid pid = record { pid = some pid; obsolete = false; initial_regions = [] }

abbrev pub address_space : TargetConfig
address_space = record { pid = none; obsolete = false; initial_regions = [] }

-- `previous_end.is_some_and(|end| end > start)`
abbrev pub overlaps : Option ℕ → ℕ → Bool
overlaps none start = false
overlaps (some end) start = ltb start end

-- The loop of `validate`, with its `previous_end`.
unfoldable pub validate_regions : Option ℕ → List InitialRegionConfig → Result (Unit {0})
validate_regions previous_end [] = done
validate_regions previous_end (region ∷ regions) = do
  invalid_if (leb region.end region.start) "initial region"
      "start must be less than the exclusive end"
  invalid_if (overlaps previous_end region.start) "initial regions"
      "regions must be sorted and must not overlap"
  validate_regions (some region.end) regions

unfoldable pub validate : TargetConfig → Result (Unit {0})
unfolding validate_regions
validate target = do
  validate_count "initial region count" (length target.initial_regions)
  validate_regions none target.initial_regions
