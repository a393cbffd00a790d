-- ===== src/Validate.antt =====
-- The validation helpers of src/sysfs/configuration/helpers.rs that read counts and texts.
pub mod Text
pub mod Exact
use damon_rs.Common.{
  ℕ, Bool, true, false, ◌||◌, ◌==◌, ltb, Option, none, some, String, List, codes, any, is_empty,
  i32_max, if◌then◌else◌,
}
use damon_rs.Error.{Result, ok, err, ◌>>◌, done, invalid, invalid_if}

-- `KERNEL_INDEX_MAX`
abbrev pub kernel_index_max : ℕ
kernel_index_max = i32_max

unfoldable pub validate_count : String → ℕ → Result (Unit {0})
validate_count field count =
    invalid_if (ltb kernel_index_max count) field "must fit the kernel's signed count type"

-- NUL, or what `u8::is_ascii_whitespace` accepts: tab, line feed, form feed, carriage return and
-- space. A byte of a character past ASCII is none of these, so code points serve for bytes.
unfoldable pub is_blank : ℕ → Bool
is_blank byte =
    byte == 0 || (byte == 9 || (byte == 10 || (byte == 12 || (byte == 13 || byte == 32))))

unfoldable pub validate_token : String → String → Result (Unit {0})
validate_token field value = do
  invalid_if (is_empty (codes value)) field "must not be empty"
  invalid_if (any is_blank (codes value)) field "must be one non-whitespace, non-NUL kernel token"

unfoldable pub is_separator : ℕ → Bool
is_separator c = c == 10 || (c == 13 || c == 0)

unfoldable pub validate_sysfs_string : String → String → Result (Unit {0})
validate_sysfs_string field value =
    invalid_if (any is_separator (codes value)) field "must not contain NUL or line separators"

unfoldable pub validate_required_path : String → Option String → Result (Unit {0})
validate_required_path field none = invalid field "is required by the selected type"
validate_required_path field (some value) = do
  invalid_if (is_empty (codes value)) field "must not be empty"
  validate_sysfs_string field value

-- `if let Some(value) = ... { check(value)?; }`
abbrev pub if_some {ℓ} : {A : Type ℓ} → Option A → (A → Result (Unit {0})) → Result (Unit {0})
if_some none check = done
if_some (some a) check = check a
