-- ===== src/Abi/ProbePreparationAction.antt =====
-- `ProbePreparationAction` of src/sysfs/configuration/model.rs: an action before a probe is
-- sampled.
use damon_rs.Common.{String, ◌≡◌, refl, str_eq, written_back, if◌then◌else◌}

pub data ProbePreparationAction : Type 0 where
  set_page_idle : ProbePreparationAction
  unknown : String → ProbePreparationAction

-- The name that the kernel ABI uses.
unfoldable pub kernel_name : ProbePreparationAction → String
kernel_name set_page_idle = "set_pgidle"
kernel_name (unknown name) = name

unfoldable pub parse : String → ProbePreparationAction
parse value = if str_eq value "set_pgidle" then set_page_idle else unknown value

abbrev pub IsKnown : ProbePreparationAction → Type 0
IsKnown (unknown name) = ⊥
IsKnown _ = Unit

-- A name that is read is written back unchanged, also one that a newer kernel introduced.
pub kernel_name-parse : (s : String) → kernel_name (parse s) ≡ s
unfolding kernel_name parse
kernel_name-parse s = written_back kernel_name s "set_pgidle" refl refl

-- Each value that the ABI defines is read back from its name.
pub parse-kernel_name : (x : ProbePreparationAction) → IsKnown x → parse (kernel_name x) ≡ x
unfolding kernel_name parse
parse-kernel_name (unknown name) h = absurd h
parse-kernel_name set_page_idle h = refl
