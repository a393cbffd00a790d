-- ===== src/Abi/QuotaGoalMetric.antt =====
-- `QuotaGoalMetric` of src/sysfs/configuration/model.rs: a DAMOS quota goal metric.
use damon_rs.Common.{Bool, true, false, String, ◌≡◌, refl, str_eq, written_back, if◌then◌else◌}

pub data QuotaGoalMetric : Type 0 where
  user_input some_memory_pressure_microseconds node_memory_used_basis_points
        node_memory_free_basis_points node_memory_control_group_used_basis_points
        node_memory_control_group_free_basis_points active_memory_basis_points
        inactive_memory_basis_points node_eligible_memory_basis_points
        huge_page_memory_basis_points :
      QuotaGoalMetric
  unknown : String → QuotaGoalMetric

-- The name that the kernel ABI uses.
unfoldable pub kernel_name : QuotaGoalMetric → String
kernel_name user_input = "user_input"
kernel_name some_memory_pressure_microseconds = "some_mem_psi_us"
kernel_name node_memory_used_basis_points = "node_mem_used_bp"
kernel_name node_memory_free_basis_points = "node_mem_free_bp"
kernel_name node_memory_control_group_used_basis_points = "node_memcg_used_bp"
kernel_name node_memory_control_group_free_basis_points = "node_memcg_free_bp"
kernel_name active_memory_basis_points = "active_mem_bp"
kernel_name inactive_memory_basis_points = "inactive_mem_bp"
kernel_name node_eligible_memory_basis_points = "node_eligible_mem_bp"
kernel_name huge_page_memory_basis_points = "hugepage_mem_bp"
kernel_name (unknown name) = name

unfoldable pub parse : String → QuotaGoalMetric
parse value =
    if str_eq value "user_input"
    then user_input
    else if str_eq value "some_mem_psi_us"
    then some_memory_pressure_microseconds
    else if str_eq value "node_mem_used_bp"
    then node_memory_used_basis_points
    else if str_eq value "node_mem_free_bp"
    then node_memory_free_basis_points
    else if str_eq value "node_memcg_used_bp"
    then node_memory_control_group_used_basis_points
    else if str_eq value "node_memcg_free_bp"
    then node_memory_control_group_free_basis_points
    else if str_eq value "active_mem_bp"
    then active_memory_basis_points
    else if str_eq value "inactive_mem_bp"
    then inactive_memory_basis_points
    else if str_eq value "node_eligible_mem_bp"
    then node_eligible_memory_basis_points
    else if str_eq value "hugepage_mem_bp"
    then huge_page_memory_basis_points
    else unknown value

unfoldable pub requires_node : QuotaGoalMetric → Bool
requires_node node_memory_used_basis_points = true
requires_node node_memory_free_basis_points = true
requires_node node_memory_control_group_used_basis_points = true
requires_node node_memory_control_group_free_basis_points = true
requires_node node_eligible_memory_basis_points = true
requires_node _ = false

unfoldable pub requires_cgroup_path : QuotaGoalMetric → Bool
requires_cgroup_path node_memory_control_group_used_basis_points = true
requires_cgroup_path node_memory_control_group_free_basis_points = true
requires_cgroup_path _ = false

unfoldable pub uses_basis_points : QuotaGoalMetric → Bool
uses_basis_points user_input = false
uses_basis_points some_memory_pressure_microseconds = false
uses_basis_points (unknown name) = false
uses_basis_points _ = true

abbrev pub IsKnown : QuotaGoalMetric → Type 0
IsKnown (unknown name) = ⊥
IsKnown _ = Unit

-- A name that is read is written back unchanged, also one that a newer kernel introduced.
pub kernel_name-parse : (s : String) → kernel_name (parse s) ≡ s
unfolding kernel_name parse
kernel_name-parse s = written_back kernel_name s "user_input" refl (
    written_back kernel_name s "some_mem_psi_us" refl (
      written_back kernel_name s "node_mem_used_bp" refl (
        written_back kernel_name s "node_mem_free_bp" refl (
          written_back kernel_name s "node_memcg_used_bp" refl (
            written_back kernel_name s "node_memcg_free_bp" refl (
              written_back kernel_name s "active_mem_bp" refl (
                written_back kernel_name s "inactive_mem_bp" refl (
                  written_back kernel_name s "node_eligible_mem_bp" refl
                    (written_back kernel_name s "hugepage_mem_bp" refl refl)))))))))

-- Each value that the ABI defines is read back from its name.
pub parse-kernel_name : (x : QuotaGoalMetric) → IsKnown x → parse (kernel_name x) ≡ x
unfolding kernel_name parse
parse-kernel_name (unknown name) h = absurd h
parse-kernel_name user_input h = refl
parse-kernel_name _ h = refl
