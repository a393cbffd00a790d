-- ===== src/Monitor/Retry.antt =====
-- `retry_busy` and `with_rollback` of src/monitor/ownership.rs, and `is_resource_busy` of
-- src/error.rs.
pub mod Attempts
use damon_rs.Common.{ℕ, zero, suc, ◌-◌, ◌*◌, ◌^◌, Bool, true, false}
use damon_rs.Error.{Error, Result, ok, err, rollback, io, resource_busy}
use damon_rs.Sysfs.{Sysfs}
use damon_rs.Sysfs.Actions.{Action}

unfoldable pub is_resource_busy : Error → Bool
is_resource_busy (io operation path resource_busy) = true
is_resource_busy _ = false

unfoldable pub is_busy : {A : Type 0} → Result A → Bool
unfolding is_resource_busy
is_busy (ok a) = false
is_busy (err e) = is_resource_busy e

abbrev pub max_retries : ℕ
max_retries = 5

-- `INITIAL_DELAY_MS << retries`, where so many retries are left.
unfoldable pub delay_ms : ℕ → ℕ
delay_ms left = 10 * 2 ^ (max_retries - left)

module _ {W : Type 0} (sys : Sysfs W) {A : Type 0} where
  -- The loop, with the retries that are left.
  unfoldable pub retry : ℕ → Action W A → Action W A
  retry zero operation w = operation w
  retry (suc left) operation w = elim (is_busy (operation w).0) [
    | true ↦ retry left operation (sys.sleep (delay_ms (suc left)) (operation w).1)
    | false ↦ operation w
  ]

  unfoldable pub retry_busy : Action W A → Action W A
  retry_busy = retry max_retries

unfoldable pub with_rollback : Error → Result (Unit {0}) → Error
with_rollback operation (ok u) = operation
with_rollback operation (err e) = rollback operation e
