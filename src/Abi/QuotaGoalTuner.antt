-- ===== src/Abi/QuotaGoalTuner.antt =====
-- `QuotaGoalTuner` of src/sysfs/configuration/model.rs: a quota-goal tuning algorithm.
use damon_rs.Common.{String, ◌≡◌, refl, str_eq, written_back, if◌then◌else◌}

pub data QuotaGoalTuner : Type 0 where
  consistent temporal : QuotaGoalTuner
  unknown : String → QuotaGoalTuner

-- The name that the kernel ABI uses.
unfoldable pub kernel_name : QuotaGoalTuner → String
kernel_name consistent = "consist"
kernel_name temporal = "temporal"
kernel_name (unknown name) = name

unfoldable pub parse : String → QuotaGoalTuner
parse value =
    if str_eq value "consist"
    then consistent
    else if str_eq value "temporal"
    then temporal
    else unknown value

abbrev pub IsKnown : QuotaGoalTuner → Type 0
IsKnown (unknown name) = ⊥
IsKnown _ = Unit

-- A name that is read is written back unchanged, also one that a newer kernel introduced.
pub kernel_name-parse : (s : String) → kernel_name (parse s) ≡ s
unfolding kernel_name parse
kernel_name-parse s =
    written_back kernel_name s "consist" refl (written_back kernel_name s "temporal" refl refl)

-- Each value that the ABI defines is read back from its name.
pub parse-kernel_name : (x : QuotaGoalTuner) → IsKnown x → parse (kernel_name x) ≡ x
unfolding kernel_name parse
parse-kernel_name (unknown name) h = absurd h
parse-kernel_name consistent h = refl
parse-kernel_name _ h = refl
