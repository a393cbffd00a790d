-- ===== src/Abi/SampleFilterType.antt =====
-- `SampleFilterType` of src/sysfs/configuration/model.rs: an access-sample filter type.
use damon_rs.Common.{String, ◌≡◌, refl, str_eq, written_back, if◌then◌else◌}

pub data SampleFilterType : Type 0 where
  cpu_mask threads write : SampleFilterType
  unknown : String → SampleFilterType

-- The name that the kernel ABI uses.
unfoldable pub kernel_name : SampleFilterType → String
kernel_name cpu_mask = "cpumask"
kernel_name threads = "threads"
kernel_name write = "write"
kernel_name (unknown name) = name

unfoldable pub parse : String → SampleFilterType
parse value =
    if str_eq value "cpumask"
    then cpu_mask
    else if str_eq value "threads"
    then threads
    else if str_eq value "write"
    then write
    else unknown value

abbrev pub IsKnown : SampleFilterType → Type 0
IsKnown (unknown name) = ⊥
IsKnown _ = Unit

-- A name that is read is written back unchanged, also one that a newer kernel introduced.
pub kernel_name-parse : (s : String) → kernel_name (parse s) ≡ s
unfolding kernel_name parse
kernel_name-parse s =
    written_back kernel_name s "cpumask" refl
      (written_back kernel_name s "threads" refl (written_back kernel_name s "write" refl refl))

-- Each value that the ABI defines is read back from its name.
pub parse-kernel_name : (x : SampleFilterType) → IsKnown x → parse (kernel_name x) ≡ x
unfolding kernel_name parse
parse-kernel_name (unknown name) h = absurd h
parse-kernel_name cpu_mask h = refl
parse-kernel_name _ h = refl
