-- ===== src/Abi/SchemeFilterType.antt =====
-- `SchemeFilterType` of src/sysfs/configuration/model.rs: a DAMOS filter type.
use damon_rs.Common.{
  Option, none, some, Bool, true, false, String, ◌≡◌, refl, str_eq, written_back, if◌then◌else◌,
}

pub data SchemeFilterType : Type 0 where
  anonymous active memory_control_group young huge_page_size unmapped address target
        probe_hits_weighted_sum :
      SchemeFilterType
  unknown : String → SchemeFilterType

-- The name that the kernel ABI uses.
unfoldable pub kernel_name : SchemeFilterType → String
kernel_name anonymous = "anon"
kernel_name active = "active"
kernel_name memory_control_group = "memcg"
kernel_name young = "young"
kernel_name huge_page_size = "hugepage_size"
kernel_name unmapped = "unmapped"
kernel_name address = "addr"
kernel_name target = "target"
kernel_name probe_hits_weighted_sum = "probe_hits_wsum"
kernel_name (unknown name) = name

unfoldable pub parse : String → SchemeFilterType
parse value =
    if str_eq value "anon"
    then anonymous
    else if str_eq value "active"
    then active
    else if str_eq value "memcg"
    then memory_control_group
    else if str_eq value "young"
    then young
    else if str_eq value "hugepage_size"
    then huge_page_size
    else if str_eq value "unmapped"
    then unmapped
    else if str_eq value "addr"
    then address
    else if str_eq value "target"
    then target
    else if str_eq value "probe_hits_wsum"
    then probe_hits_weighted_sum
    else unknown value

-- Whether the operations implementation handles the filter: `none` where that is not known.
unfoldable pub handled_by_operations : SchemeFilterType → Option Bool
handled_by_operations address = some false
handled_by_operations target = some false
handled_by_operations probe_hits_weighted_sum = some false
handled_by_operations (unknown name) = none
handled_by_operations _ = some true

abbrev pub IsKnown : SchemeFilterType → Type 0
IsKnown (unknown name) = ⊥
IsKnown _ = Unit

-- A name that is read is written back unchanged, also one that a newer kernel introduced.
pub kernel_name-parse : (s : String) → kernel_name (parse s) ≡ s
unfolding kernel_name parse
kernel_name-parse s = written_back kernel_name s "anon" refl (
    written_back kernel_name s "active" refl (
      written_back kernel_name s "memcg" refl (
        written_back kernel_name s "young" refl (
          written_back kernel_name s "hugepage_size" refl (
            written_back kernel_name s "unmapped" refl (
              written_back kernel_name s "addr" refl (
                written_back kernel_name s "target" refl
                  (written_back kernel_name s "probe_hits_wsum" refl refl))))))))

-- Each value that the ABI defines is read back from its name.
pub parse-kernel_name : (x : SchemeFilterType) → IsKnown x → parse (kernel_name x) ≡ x
unfolding kernel_name parse
parse-kernel_name (unknown name) h = absurd h
parse-kernel_name anonymous h = refl
parse-kernel_name _ h = refl
