-- ===== src/Monitor/Hierarchy.antt =====
-- `ManagedHierarchy` of src/monitor/hierarchy.rs: the checks of ownership, and starting, stopping
-- and closing the hierarchy (in Lifecycle). A method of `&self` is an action on the system, and a method of
-- `&mut self` one on the handle and the system.
pub mod Selection
pub mod Obsolete
pub mod Lifecycle
use damon_rs.Common.{
  ℕ, zero, suc, ◌-◌, Bool, true, false, not, Option, none, some, List, [], ◌∷◌, String, ltb, ◌==◌,
  if◌then◌else◌, length, get_elem?, set_elem, unwrap_or, ◌||◌,
}
use damon_rs.Error.{
  Error, Result, ok, err, not_running, kdamond_running, unexpected_kdamond_state, ownership_lost,
  index_out_of_bounds,
}
use damon_rs.Config.Pid.{Pid}
use damon_rs.Abi.KdamondState.{KdamondState, on, off, unknown}
use damon_rs.Abi.KdamondCommand
use damon_rs.Sysfs.{Sysfs, kdamond_count, state, pid, command}
use damon_rs.Sysfs.Actions.{Action, after, ◌>>=◌, ◌>>◌, pure, fail, unit, lift}
use damon_rs.Sysfs.Ownership.{ConfigurationSnapshot, matches_current}
use damon_rs.Monitor.Retry.{retry_busy, with_rollback}
use damon_rs.Monitor.Staged.{
  StagedOwnership, verify, verify_count, verify_kdamond_configuration, running_thread_pid, some_or,
  restore_configuration,
}

pub data KdamondSessionState : Type 0 where
  staged : KdamondSessionState
  running : Pid → KdamondSessionState
  unidentified_running : KdamondSessionState

pub record ManagedHierarchy : Type 0 where
  pub previous : Option ConfigurationSnapshot
  pub ownership : StagedOwnership
  pub states : List KdamondSessionState
  pub owns_hierarchy : Bool

-- `states[i]`; the code asks only for indexes below the count.
unfoldable pub state_at : List KdamondSessionState → ℕ → KdamondSessionState
state_at states i = unwrap_or (get_elem? states i) staged

abbrev pub Session : Type 0 → Type 0
Session W = ManagedHierarchy × W

abbrev keep : {W A : Type 0} → ManagedHierarchy → Result A × W → Result A × Session W
keep m (r, w) = (r, (m, w))

-- A property of what follows a reading, which leaves the handle as it is.
reading_rule :
    {W A B : Type 0} (P : Result B × Session W → Type 0) (m : ManagedHierarchy) (r : Result A × W)
    (next : A → Action (Session W) B)
    → ((e : Error) (w : W) → P (err e, (m, w)))
    → ((a : A) (w : W) → P (next a (m, w)))
    → P (after (keep m r) next)
reading_rule P m (err e, w) next h k = h e w
reading_rule P m (ok a, w) next h k = k a w

-- A method of `&self`, or of the system, in a method of `&mut self`.
abbrev pub reading : {W A : Type 0} → (ManagedHierarchy → Action W A) → Action (Session W) A
reading f (m, w) = keep m (f m w)

abbrev pub set_state : {W : Type 0} → ℕ → KdamondSessionState → Action (Session W) (Unit {0})
set_state i s (m, w) = (ok tt, (record m { states = set_elem m.states i s }, w))

abbrev pub pid_eq : Pid → Pid → Bool
pid_eq a b = a.raw == b.raw

unfoldable pub validate_kdamond_index : ManagedHierarchy → ℕ → Result (Unit {0})
validate_kdamond_index self i =
    if ltb i (length self.states)
    then ok tt
    else err (index_out_of_bounds "kdamond" i (length self.states))

expected_pid : KdamondSessionState → Result Pid
expected_pid (running p) = ok p
expected_pid staged = err not_running
expected_pid unidentified_running =
    err (ownership_lost "the kdamond started but its identity was not captured")

unfoldable pub expected_running_pid : ManagedHierarchy → ℕ → Result Pid
unfolding validate_kdamond_index expected_pid
expected_running_pid self i = elim (validate_kdamond_index self i) [
  | ok u ↦ expected_pid (state_at self.states i)
  | err e ↦ err e
]

module _ {W : Type 0} (sys : Sysfs W) where
  -- `if current != expected { return Err(..); }`
  abbrev same_thread : Pid → Pid → Action W (Unit {0})
  same_thread current expected =
      if pid_eq current expected
      then unit
      else fail (ownership_lost "the kdamond kernel-thread ID changed")

  unfoldable pub verify_running_identity_only : ManagedHierarchy → ℕ → Action W (Unit {0})
  unfolding expected_running_pid
  verify_running_identity_only self i = do
    lift (validate_kdamond_index self i)
    count ← kdamond_count sys
    if count == length self.states
        then (do
          expected ← lift (expected_running_pid self i)
          p ← retry_busy sys (pid sys i)
          current ← some_or sys p (err not_running)
          same_thread current expected)
        else fail (ownership_lost "the staged kdamond count changed")

  unfoldable pub verify_running_identity : ManagedHierarchy → ℕ → Action W (Unit {0})
  unfolding verify_running_identity_only
  verify_running_identity self i = do verify sys self.ownership; verify_running_identity_only self i

  unfoldable pub verify_running_state_and_identity_without_count :
      ManagedHierarchy → ℕ → Action W (Unit {0})
  unfolding expected_running_pid
  verify_running_state_and_identity_without_count self i = do
    expected ← lift (expected_running_pid self i)
    current ← running_thread_pid sys i
    same_thread current expected

  unfoldable pub verify_running : ManagedHierarchy → ℕ → Action W (Unit {0})
  unfolding verify_running_state_and_identity_without_count
  verify_running self i = do
    lift (validate_kdamond_index self i)
    verify sys self.ownership
    verify_running_state_and_identity_without_count self i

  -- The reading of a staged kdamond's state, which must be off.
  abbrev expect_off : {A : Type 0} → KdamondState → A → Action W A
  expect_off off a = pure a
  expect_off on a = fail (ownership_lost "the staged kdamond was started by another controller")
  expect_off (unknown name) a = fail (unexpected_kdamond_state name)

  verify_one : ManagedHierarchy → ℕ → KdamondSessionState → Action W (Unit {0})
  unfolding verify_running_state_and_identity_without_count
  verify_one self i staged = do s ← retry_busy sys (state sys i); expect_off s tt
  verify_one self i (running p) = verify_running_state_and_identity_without_count self i
  verify_one self i unidentified_running =
      fail (ownership_lost "the kdamond started but its identity was not captured")

  -- The loop from an index, with the kdamonds that are left.
  verify_each : ManagedHierarchy → ℕ → ℕ → Action W (Unit {0})
  unfolding verify_one
  verify_each self zero i = unit
  verify_each self (suc left) i =
      let rest = verify_each self left (suc i) in
      do verify_one self i (state_at self.states i); rest

  unfoldable pub verify_owned_state : ManagedHierarchy → Action W (Unit {0})
  unfolding verify_each
  verify_owned_state self =
      if self.owns_hierarchy
      then (do verify sys self.ownership; verify_each self (length self.states) 0)
      else fail not_running

  running_answer : Result (Unit {0}) × W → Result Bool × W
  running_answer (ok u, w) = (ok true, w)
  running_answer (err not_running, w) = (ok false, w)
  running_answer (err e, w) = (err e, w)

  is_running_of : ManagedHierarchy → ℕ → KdamondSessionState → Action W Bool
  unfolding verify_running running_answer
  is_running_of self i staged w =
      (verify sys self.ownership >> (retry_busy sys (state sys i) >>= λ s. expect_off s false)) w
  is_running_of self i (running p) w = running_answer (verify_running self i w)
  is_running_of self i unidentified_running w =
      (err (ownership_lost "the kdamond started but its identity was not captured"), w)

  unfoldable pub is_running : ManagedHierarchy → ℕ → Action W Bool
  unfolding is_running_of
  is_running self i = do
    lift (validate_kdamond_index self i)
    is_running_of self i (state_at self.states i)
