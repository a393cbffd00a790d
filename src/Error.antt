-- ===== src/Error.antt =====
-- src/error.rs: the crate's error type, and `Result`. A path is the text that it displays. Of an
-- `io::Error` the crate asks only the kind and, for EBUSY, the raw number.
pub mod Checks
use damon_rs.Common.{
  ℕ, ◌≡◌, ◌↔◌, refl, Bool, true, false, Option, none, some, String, ℤ, arith, if◌then◌else◌,
}
use damon_rs.Abi.Operation.{Operation}

pub data IoErrorKind : Type 0 where
  not_found interrupted resource_busy write_zero invalid_data : IoErrorKind
  other : ℕ → IoErrorKind

pub data Error : Type 0 where
  unavailable : String → Error
  unsupported_platform : Error
  -- the field, and the reason
  invalid_configuration : String → String → Error
  unsupported_operation : Operation → Error
  unsupported_feature : String → Error
  in_use : ℕ → Error
  kdamond_running : ℕ → Error
  -- the path, the expected and the observed value
  configuration_mismatch : String → String → String → Error
  not_running : Error
  unexpected_kdamond_state : String → Error
  -- the path, the value and what was expected
  invalid_kernel_value : String → String → String → Error
  invalid_region : ℕ → ℕ → Error
  snapshot_size_overflow : Error
  multiple_snapshot_results : ℕ → Error
  -- the units or bytes, and the unit
  address_conversion_overflow : ℕ → ℕ → Error
  address_conversion_inexact : ℕ → ℕ → Error
  -- the kind, the index and the count
  index_out_of_bounds : String → ℕ → ℕ → Error
  session_lock_busy : String → Error
  invalid_receipt : String → Error
  receipt_mismatch : String → Error
  snapshot_worker_spawn : IoErrorKind → Error
  snapshot_worker_disconnected : Error
  -- the verification error of a mutation that succeeded, and of one that failed
  persistent_state_uncertain : Error → Error
  persistent_state_uncertain_after : Error → Error → Error
  ownership_lost : String → Error
  io : String → String → IoErrorKind → Error
  -- the operation's error, and the restoration's
  rollback : Error → Error → Error

pub data Result {ℓ} (T : Type ℓ) : Type ℓ where
  err : Error → Result T
  ok : T → Result T

infixl 5 ◌>>=◌ ◌>>◌
-- `?`: an error returns at once.
abbrev pub ◌>>=◌ {ℓ κ} : {T : Type ℓ} {U : Type κ} → Result T → (T → Result U) → Result U
err error >>= next = err error
ok value >>= next = next value

abbrev pub ◌>>◌ {ℓ} : {U : Type ℓ} → Result (Unit {0}) → Result U → Result U
err error >> rest = err error
ok u >> rest = rest

abbrev pub done : Result (Unit {0})
done = ok tt

-- `invalid` of src/sysfs/configuration/helpers.rs
abbrev pub invalid {ℓ} : {A : Type ℓ} → String → String → Result A
invalid field reason = err (invalid_configuration field reason)

-- `if test { return invalid(field, reason); }`
abbrev pub invalid_if : Bool → String → String → Result (Unit {0})
invalid_if true field reason = invalid field reason
invalid_if false field reason = done

-- `ok_or`
abbrev pub ok_or {ℓ} : {A : Type ℓ} → Option A → Error → Result A
ok_or none e = err e
ok_or (some a) e = ok a
