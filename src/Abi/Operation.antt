-- ===== src/Abi/Operation.antt =====
-- `Operation` of src/sysfs/abi.rs: a monitoring operations set.
use damon_rs.Common.{String, ◌≡◌, refl, str_eq, written_back, if◌then◌else◌}

pub data Operation : Type 0 where
  virtual_address fixed_virtual_address physical_address : Operation
  unknown : String → Operation

-- The name that the kernel ABI uses.
unfoldable pub kernel_name : Operation → String
kernel_name virtual_address = "vaddr"
kernel_name fixed_virtual_address = "fvaddr"
kernel_name physical_address = "paddr"
kernel_name (unknown name) = name

unfoldable pub parse : String → Operation
parse value =
    if str_eq value "vaddr"
    then virtual_address
    else if str_eq value "fvaddr"
    then fixed_virtual_address
    else if str_eq value "paddr"
    then physical_address
    else unknown value

abbrev pub IsKnown : Operation → Type 0
IsKnown (unknown name) = ⊥
IsKnown _ = Unit

-- A name that is read is written back unchanged, also one that a newer kernel introduced.
pub kernel_name-parse : (s : String) → kernel_name (parse s) ≡ s
unfolding kernel_name parse
kernel_name-parse s =
    written_back kernel_name s "vaddr" refl
      (written_back kernel_name s "fvaddr" refl (written_back kernel_name s "paddr" refl refl))

-- Each value that the ABI defines is read back from its name.
pub parse-kernel_name : (x : Operation) → IsKnown x → parse (kernel_name x) ≡ x
unfolding kernel_name parse
parse-kernel_name (unknown name) h = absurd h
parse-kernel_name virtual_address h = refl
parse-kernel_name _ h = refl
