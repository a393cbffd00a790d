-- ===== src/Abi/Action.antt =====
-- `Action` of src/sysfs/abi.rs: a DAMOS action.
use damon_rs.Common.{String, ◌≡◌, refl, str_eq, written_back, if◌then◌else◌}

pub data Action : Type 0 where
  will_need cold page_out huge_page no_huge_page collapse lru_prioritize lru_deprioritize
        migrate_hot migrate_cold damos_allocate damos_free stat :
      Action
  unknown : String → Action

-- The name that the kernel ABI uses.
unfoldable pub kernel_name : Action → String
kernel_name will_need = "willneed"
kernel_name cold = "cold"
kernel_name page_out = "pageout"
kernel_name huge_page = "hugepage"
kernel_name no_huge_page = "nohugepage"
kernel_name collapse = "collapse"
kernel_name lru_prioritize = "lru_prio"
kernel_name lru_deprioritize = "lru_deprio"
kernel_name migrate_hot = "migrate_hot"
kernel_name migrate_cold = "migrate_cold"
kernel_name damos_allocate = "damos_alloc"
kernel_name damos_free = "damos_free"
kernel_name stat = "stat"
kernel_name (unknown name) = name

unfoldable pub parse : String → Action
parse value =
    if str_eq value "willneed"
    then will_need
    else if str_eq value "cold"
    then cold
    else if str_eq value "pageout"
    then page_out
    else if str_eq value "hugepage"
    then huge_page
    else if str_eq value "nohugepage"
    then no_huge_page
    else if str_eq value "collapse"
    then collapse
    else if str_eq value "lru_prio"
    then lru_prioritize
    else if str_eq value "lru_deprio"
    then lru_deprioritize
    else if str_eq value "migrate_hot"
    then migrate_hot
    else if str_eq value "migrate_cold"
    then migrate_cold
    else if str_eq value "damos_alloc"
    then damos_allocate
    else if str_eq value "damos_free"
    then damos_free
    else if str_eq value "stat"
    then stat
    else unknown value

abbrev pub IsKnown : Action → Type 0
IsKnown (unknown name) = ⊥
IsKnown _ = Unit

-- A name that is read is written back unchanged, also one that a newer kernel introduced.
pub kernel_name-parse : (s : String) → kernel_name (parse s) ≡ s
unfolding kernel_name parse
kernel_name-parse s = written_back kernel_name s "willneed" refl (
    written_back kernel_name s "cold" refl (
      written_back kernel_name s "pageout" refl (
        written_back kernel_name s "hugepage" refl (
          written_back kernel_name s "nohugepage" refl (
            written_back kernel_name s "collapse" refl (
              written_back kernel_name s "lru_prio" refl (
                written_back kernel_name s "lru_deprio" refl (
                  written_back kernel_name s "migrate_hot" refl (
                    written_back kernel_name s "migrate_cold" refl (
                      written_back kernel_name s "damos_alloc" refl (
                        written_back kernel_name s "damos_free" refl
                          (written_back kernel_name s "stat" refl refl))))))))))))

-- Each action that the ABI defines is read back from its name.
pub parse-kernel_name : (x : Action) → IsKnown x → parse (kernel_name x) ≡ x
unfolding kernel_name parse
parse-kernel_name (unknown name) h = absurd h
parse-kernel_name will_need h = refl
parse-kernel_name _ h = refl
