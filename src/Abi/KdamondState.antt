-- ===== src/Abi/KdamondState.antt =====
-- `KdamondState` of src/sysfs/abi.rs: the state that a kdamond reports.
use damon_rs.Common.{String, ◌≡◌, ◌↔◌, sym, ap, ◌∙◌, refl, str_eq, written_back, if◌then◌else◌}
use damon_rs.Error.{Result, ok, ◌>>◌}
use damon_rs.Error.Checks.{>>-ok, ok_value}
use damon_rs.Validate.{validate_token}
use damon_rs.Validate.Text.{IsToken, validate_token-IsToken}

pub data KdamondState : Type 0 where
  on off : KdamondState
  unknown : String → KdamondState

-- The name that the kernel ABI uses.
unfoldable pub kernel_name : KdamondState → String
kernel_name on = "on"
kernel_name off = "off"
kernel_name (unknown name) = name

-- The match of `from_str`.
unfoldable pub of_name : String → KdamondState
of_name value = if str_eq value "on" then on else if str_eq value "off" then off else unknown value

-- `from_str`
unfoldable pub parse : String → Result KdamondState
unfolding of_name
parse value = do validate_token "kdamond state" value; ok (of_name value)

abbrev pub IsKnown : KdamondState → Type 0
IsKnown (unknown name) = ⊥
IsKnown _ = Unit

-- A name that is read is written back unchanged, also one that a newer kernel introduced.
pub kernel_name-of_name : (s : String) → kernel_name (of_name s) ≡ s
unfolding kernel_name of_name
kernel_name-of_name s =
    written_back kernel_name s "on" refl (written_back kernel_name s "off" refl refl)

-- Each value that the ABI defines is read back from its name.
pub of_name-kernel_name : (x : KdamondState) → IsKnown x → of_name (kernel_name x) ≡ x
unfolding kernel_name of_name
of_name-kernel_name (unknown name) h = absurd h
of_name-kernel_name on h = refl
of_name-kernel_name _ h = refl

-- Exactly the tokens are read, each as the value that is written back as this token.
pub parse-IsToken :
    (s : String) (x : KdamondState)
    → (parse s ≡ ok x) ↔ (IsToken s × (x ≡ of_name s) × (kernel_name x ≡ s))
unfolding parse
parse-IsToken s x =
    let token = validate_token-IsToken "kdamond state" s in
    (
      λ h.
          let (a, b) = >>-ok (validate_token "kdamond state" s) (ok (of_name s)) h in
          let same = ok_value b in
          (token.0 a, sym same, ap kernel_name (sym same) ∙ kernel_name-of_name s),
      λ v. rw (token.1 v.0) (ap ok (sym v.1)),
    )
