-- ===== src/Abi/ProbeFilterType.antt =====
-- `ProbeFilterType` of src/sysfs/abi.rs: a monitoring-probe filter type.
use damon_rs.Common.{String, ◌≡◌, refl, str_eq, written_back, if◌then◌else◌}

pub data ProbeFilterType : Type 0 where
  anonymous memory_control_group page_idle_unset page_idle_set : ProbeFilterType
  unknown : String → ProbeFilterType

-- The name that the kernel ABI uses.
unfoldable pub kernel_name : ProbeFilterType → String
kernel_name anonymous = "anon"
kernel_name memory_control_group = "memcg"
kernel_name page_idle_unset = "pgidle_unset"
kernel_name page_idle_set = "pgidle_set"
kernel_name (unknown name) = name

unfoldable pub parse : String → ProbeFilterType
parse value =
    if str_eq value "anon"
    then anonymous
    else if str_eq value "memcg"
    then memory_control_group
    else if str_eq value "pgidle_unset"
    then page_idle_unset
    else if str_eq value "pgidle_set"
    then page_idle_set
    else unknown value

abbrev pub IsKnown : ProbeFilterType → Type 0
IsKnown (unknown name) = ⊥
IsKnown _ = Unit

-- A name that is read is written back unchanged, also one that a newer kernel introduced.
pub kernel_name-parse : (s : String) → kernel_name (parse s) ≡ s
unfolding kernel_name parse
kernel_name-parse s = written_back kernel_name s "anon" refl (
    written_back kernel_name s "memcg" refl (
      written_back kernel_name s "pgidle_unset" refl
        (written_back kernel_name s "pgidle_set" refl refl)))

-- Each value that the ABI defines is read back from its name.
pub parse-kernel_name : (x : ProbeFilterType) → IsKnown x → parse (kernel_name x) ≡ x
unfolding kernel_name parse
parse-kernel_name (unknown name) h = absurd h
parse-kernel_name anonymous h = refl
parse-kernel_name _ h = refl
