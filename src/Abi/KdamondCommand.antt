-- ===== src/Abi/KdamondCommand.antt =====
-- `KdamondCommand` of src/sysfs/abi.rs: a command accepted by a `state` file.
use damon_rs.Common.{String, ◌≡◌, ◌↔◌, sym, ap, ◌∙◌, refl, str_eq, written_back, if◌then◌else◌}
use damon_rs.Error.{Result, ok, ◌>>◌}
use damon_rs.Error.Checks.{>>-ok, ok_value}
use damon_rs.Validate.{validate_token}
use damon_rs.Validate.Text.{IsToken, validate_token-IsToken}

pub data KdamondCommand : Type 0 where
  on off commit commit_schemes_quota_goals update_schemes_stats update_schemes_tried_bytes
        update_schemes_tried_regions clear_schemes_tried_regions update_schemes_effective_quotas
        update_tuned_intervals :
      KdamondCommand
  unknown : String → KdamondCommand

-- The name that the kernel ABI uses.
unfoldable pub kernel_name : KdamondCommand → String
kernel_name on = "on"
kernel_name off = "off"
kernel_name commit = "commit"
kernel_name commit_schemes_quota_goals = "commit_schemes_quota_goals"
kernel_name update_schemes_stats = "update_schemes_stats"
kernel_name update_schemes_tried_bytes = "update_schemes_tried_bytes"
kernel_name update_schemes_tried_regions = "update_schemes_tried_regions"
kernel_name clear_schemes_tried_regions = "clear_schemes_tried_regions"
kernel_name update_schemes_effective_quotas = "update_schemes_effective_quotas"
kernel_name update_tuned_intervals = "update_tuned_intervals"
kernel_name (unknown name) = name

-- The match of `from_str`.
unfoldable pub of_name : String → KdamondCommand
of_name value =
    if str_eq value "on"
    then on
    else if str_eq value "off"
    then off
    else if str_eq value "commit"
    then commit
    else if str_eq value "commit_schemes_quota_goals"
    then commit_schemes_quota_goals
    else if str_eq value "update_schemes_stats"
    then update_schemes_stats
    else if str_eq value "update_schemes_tried_bytes"
    then update_schemes_tried_bytes
    else if str_eq value "update_schemes_tried_regions"
    then update_schemes_tried_regions
    else if str_eq value "clear_schemes_tried_regions"
    then clear_schemes_tried_regions
    else if str_eq value "update_schemes_effective_quotas"
    then update_schemes_effective_quotas
    else if str_eq value "update_tuned_intervals"
    then update_tuned_intervals
    else unknown value

-- `from_str`
unfoldable pub parse : String → Result KdamondCommand
unfolding of_name
parse value = do validate_token "kdamond command" value; ok (of_name value)

abbrev pub IsKnown : KdamondCommand → Type 0
IsKnown (unknown name) = ⊥
IsKnown _ = Unit

-- A name that is read is written back unchanged, also one that a newer kernel introduced.
pub kernel_name-of_name : (s : String) → kernel_name (of_name s) ≡ s
unfolding kernel_name of_name
kernel_name-of_name s = written_back kernel_name s "on" refl (
    written_back kernel_name s "off" refl (
      written_back kernel_name s "commit" refl (
        written_back kernel_name s "commit_schemes_quota_goals" refl (
          written_back kernel_name s "update_schemes_stats" refl (
            written_back kernel_name s "update_schemes_tried_bytes" refl (
              written_back kernel_name s "update_schemes_tried_regions" refl (
                written_back kernel_name s "clear_schemes_tried_regions" refl (
                  written_back kernel_name s "update_schemes_effective_quotas" refl
                    (written_back kernel_name s "update_tuned_intervals" refl refl)))))))))

-- Each value that the ABI defines is read back from its name.
pub of_name-kernel_name : (x : KdamondCommand) → IsKnown x → of_name (kernel_name x) ≡ x
unfolding kernel_name of_name
of_name-kernel_name (unknown name) h = absurd h
of_name-kernel_name on h = refl
of_name-kernel_name _ h = refl

-- Exactly the tokens are read, each as the value that is written back as this token.
pub parse-IsToken :
    (s : String) (x : KdamondCommand)
    → (parse s ≡ ok x) ↔ (IsToken s × (x ≡ of_name s) × (kernel_name x ≡ s))
unfolding parse
parse-IsToken s x =
    let token = validate_token-IsToken "kdamond command" s in
    (
      λ h.
          let (a, b) = >>-ok (validate_token "kdamond command" s) (ok (of_name s)) h in
          let same = ok_value b in
          (token.0 a, sym same, ap kernel_name (sym same) ∙ kernel_name-of_name s),
      λ v. rw (token.1 v.0) (ap ok (sym v.1)),
    )
