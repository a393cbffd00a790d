-- ===== src/Abi/WatermarkMetric.antt =====
-- `WatermarkMetric` of src/sysfs/configuration/model.rs: a DAMOS watermark metric.
use damon_rs.Common.{String, ◌≡◌, refl, str_eq, written_back, if◌then◌else◌}

pub data WatermarkMetric : Type 0 where
  disabled free_memory_rate : WatermarkMetric
  unknown : String → WatermarkMetric

-- The name that the kernel ABI uses.
unfoldable pub kernel_name : WatermarkMetric → String
kernel_name disabled = "none"
kernel_name free_memory_rate = "free_mem_rate"
kernel_name (unknown name) = name

unfoldable pub parse : String → WatermarkMetric
parse value =
    if str_eq value "none"
    then disabled
    else if str_eq value "free_mem_rate"
    then free_memory_rate
    else unknown value

abbrev pub IsKnown : WatermarkMetric → Type 0
IsKnown (unknown name) = ⊥
IsKnown _ = Unit

-- A name that is read is written back unchanged, also one that a newer kernel introduced.
pub kernel_name-parse : (s : String) → kernel_name (parse s) ≡ s
unfolding kernel_name parse
kernel_name-parse s =
    written_back kernel_name s "none" refl (written_back kernel_name s "free_mem_rate" refl refl)

-- Each value that the ABI defines is read back from its name.
pub parse-kernel_name : (x : WatermarkMetric) → IsKnown x → parse (kernel_name x) ≡ x
unfolding kernel_name parse
parse-kernel_name (unknown name) h = absurd h
parse-kernel_name disabled h = refl
parse-kernel_name _ h = refl
