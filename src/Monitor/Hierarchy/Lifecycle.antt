-- ===== src/Monitor/Hierarchy/Lifecycle.antt =====
-- Starting, stopping and closing of src/monitor/hierarchy.rs, with the rollback of a start.
pub mod Stops
pub mod Starts
pub mod Foreign
pub mod Reach
use damon_rs.Common.{
  ℕ, zero, suc, Bool, true, false, not, Option, none, some, List, [], ◌∷◌, all, if◌then◌else◌,
  length, ◌&&◌,
}
use damon_rs.Error.{
  Error, Result, ok, err, not_running, kdamond_running, unexpected_kdamond_state, ownership_lost,
}
use damon_rs.Config.Pid.{Pid}
use damon_rs.Abi.KdamondState
use damon_rs.Abi.KdamondState.{KdamondState, on, off, unknown}
use damon_rs.Abi.KdamondCommand
use damon_rs.Sysfs.{Sysfs, state, pid, command}
use damon_rs.Sysfs.Actions.{Action, after, ◌>>=◌, ◌>>◌, pure, fail, unit, lift}
use damon_rs.Sysfs.Ownership.{ConfigurationSnapshot, matches_current}
use damon_rs.Monitor.Retry.{retry_busy, with_rollback}
use damon_rs.Monitor.Staged.{
  verify, verify_count, verify_kdamond_configuration, running_thread_pid, some_or,
  restore_configuration,
}
use damon_rs.Monitor.Hierarchy.{
  KdamondSessionState, staged, running, unidentified_running, ManagedHierarchy, state_at, Session,
  reading, set_state, verify_running_identity_only, verify_owned_state, same_thread, expect_off,
}

abbrev pub is_staged : KdamondSessionState → Bool
is_staged staged = true
is_staged _ = false

-- `if first_error.is_none() { first_error = Some(error); }`
abbrev pub first_error : Option Error → Result (Unit {0}) → Option Error
first_error (some e) r = some e
first_error none (err e) = some e
first_error none (ok u) = none

abbrev pub result_of : Option Error → Result (Unit {0})
result_of none = ok tt
result_of (some e) = err e

module _ {W : Type 0} (sys : Sysfs W) where
  unfoldable pub start_one : ℕ → Action (Session W) (Unit {0})
  start_one i = do
    reading (λ m. retry_busy sys (command sys i KdamondCommand.on))
    set_state i unidentified_running
    p ← reading (λ m. running_thread_pid sys i)
    set_state i (running p)
    reading (λ m. verify_running_identity_only sys m i)
    reading (λ m. verify_kdamond_configuration sys m.ownership i)

  -- After the command, and the reading of the state that follows it.
  abbrev stopped_after : ℕ → KdamondState → Action (Session W) (Unit {0})
  stopped_after i off = set_state i staged
  stopped_after i on = fail (ownership_lost "the kdamond restarted while it was being stopped")
  stopped_after i (unknown name) = fail (unexpected_kdamond_state name)

  -- The command is given only to the recorded thread.
  abbrev stop_current : ℕ → Pid → Option Pid → Action (Session W) (Unit {0})
  stop_current i expected p = do
    current ← reading (λ m. some_or sys p (err not_running))
    reading (λ m. same_thread sys current expected)
    reading (λ m. retry_busy sys (command sys i KdamondCommand.off))
    s ← reading (λ m. retry_busy sys (state sys i))
    stopped_after i s

  abbrev stop_thread : ℕ → Pid → Action (Session W) (Unit {0})
  stop_thread i expected = reading (λ m. retry_busy sys (pid sys i)) >>= stop_current i expected

  -- The cases of `stop_one`, on the session state and the kdamond's state that was read.
  stop_read : ℕ → KdamondSessionState → KdamondState → Action (Session W) (Unit {0})
  stop_read i staged s = reading (λ m. expect_off sys s tt)
  stop_read i (running p) off = set_state i staged
  stop_read i (running p) on = stop_thread i p
  stop_read i (running p) (unknown name) = fail (unexpected_kdamond_state name)
  stop_read i unidentified_running off = set_state i staged
  stop_read i unidentified_running on =
      fail (ownership_lost "cannot safely stop a kdamond before its kernel-thread ID was captured")
  stop_read i unidentified_running (unknown name) = fail (unexpected_kdamond_state name)

  unfoldable pub stop_one : ℕ → Action (Session W) (Unit {0})
  unfolding stop_read
  stop_one i (m, w) =
      (reading (λ m. retry_busy sys (state sys i)) >>= stop_read i (state_at m.states i)) (m, w)

  -- The body of both loops: an error of the check and one of the stop are treated alike.
  unfoldable pub stop_owned : ℕ → Action (Session W) (Unit {0})
  unfolding stop_one
  stop_owned i = do reading (λ m. verify_kdamond_configuration sys m.ownership i); stop_one i

  -- A lost count ends the loop.
  abbrev counted :
      Option Error
      → (Session W → Option Error × Session W)
      → Result (Unit {0}) × Session W
      → Option Error × Session W
  counted first next (err e, s) = (first_error first (err e), s)
  counted first next (ok u, s) = next s

  abbrev recorded :
      Option Error
      → (Option Error → Session W → Option Error × Session W)
      → Result (Unit {0}) × Session W
      → Option Error × Session W
  recorded first next (r, s) = next (first_error first r) s

  -- The loop downwards, with the kdamonds that are left and the first error.
  unfoldable pub stop_each : ℕ → Option Error → Session W → Option Error × Session W
  unfolding stop_owned
  stop_each zero first s = (first, s)
  stop_each (suc i) first s =
      counted first (λ t. recorded first (stop_each i) (stop_owned i t))
        (reading (λ m. verify_count sys m.ownership) s)

  stop_end : Option Error × Session W → Result (Unit {0}) × Session W
  stop_end (some e, s) = (err e, s)
  stop_end (none, s) = reading (λ m. verify sys m.ownership) s

  unfoldable pub stop_all : Action (Session W) (Unit {0})
  unfolding stop_each stop_end
  stop_all (m, w) =
      if m.owns_hierarchy
      then (reading (λ m. verify_count sys m.ownership) >> λ s.
            stop_end (stop_each (length m.states) none s))
          (m, w)
      else (ok tt, (m, w))

  unfoldable pub rollback_each : ℕ → Option Error → Session W → Option Error × Session W
  unfolding stop_owned
  rollback_each zero first s = (first, s)
  rollback_each (suc i) first (m, w) =
      let skipped = rollback_each i first (m, w) in
      if is_staged (state_at m.states i)
      then skipped
      else recorded first (rollback_each i) (stop_owned i (m, w))

  abbrev rollback_end : Option Error × Session W → Result (Unit {0}) × Session W
  rollback_end (first, s) = (result_of first, s)

  unfoldable pub rollback_started : Action (Session W) (Unit {0})
  unfolding rollback_each
  rollback_started (m, w) =
      if all is_staged m.states
      then (ok tt, (m, w))
      else (reading (λ m. verify_count sys m.ownership) >> λ s.
            rollback_end (rollback_each (length m.states) none s))
          (m, w)

  -- `return Err(with_rollback(operation, self.rollback_started()));`
  rolled_back : Error → Result (Unit {0}) × Session W → Result (Unit {0}) × Session W
  rolled_back operation (r, s) = (err (with_rollback operation r), s)

  or_rollback : Result (Unit {0}) × Session W → Result (Unit {0}) × Session W
  unfolding rolled_back
  or_rollback (ok u, s) = (ok u, s)
  or_rollback (err operation, s) = rolled_back operation (rollback_started s)

  -- The session states are all staged, or the error that the first other one gives.
  check_staged : ℕ → List KdamondSessionState → Result (Unit {0})
  check_staged i [] = ok tt
  check_staged i (staged ∷ states) = check_staged (suc i) states
  check_staged i (running p ∷ states) = err (kdamond_running i)
  check_staged i (unidentified_running ∷ states) =
      err (ownership_lost "the kdamond started but its identity was not captured")

  check_off : ℕ → ℕ → Action W (Unit {0})
  check_off zero i = unit
  check_off (suc left) i =
      let rest = check_off left (suc i) in
      do s ← retry_busy sys (state sys i); expect_off sys s tt; rest

  start_owned : ℕ → Action (Session W) (Unit {0})
  start_owned i = do
    reading (λ m. verify_count sys m.ownership)
    reading (λ m. verify_kdamond_configuration sys m.ownership i)
    start_one i

  -- The loop upwards, with the kdamonds that are left; an error leaves it.
  unfoldable pub start_each : ℕ → ℕ → Action (Session W) (Unit {0})
  unfolding start_owned
  start_each zero i = unit
  start_each (suc left) i = let rest = start_each left (suc i) in do start_owned i; rest

  unfoldable pub start_ready : Action (Session W) (Unit {0})
  unfolding check_staged check_off
  start_ready (m, w) =
      (if m.owns_hierarchy
          then (do
            lift (check_staged 0 m.states)
            reading (λ m. verify sys m.ownership)
            reading (λ m. check_off (length m.states) 0))
          else fail not_running)
        (m, w)

  -- The starts, and the check after them, each of which rolls back where it fails.
  unfoldable pub start_staged : Action (Session W) (Unit {0})
  unfolding start_each
  start_staged (m, w) =
      (start_each (length m.states) 0 >> reading (λ m. verify_owned_state sys m)) (m, w)

  unfoldable pub start_all : Action (Session W) (Unit {0})
  unfolding start_ready or_rollback start_staged
  start_all = do start_ready; λ s. or_rollback (start_staged s)

  restore_previous : Option ConfigurationSnapshot → Action W (Unit {0})
  restore_previous none = fail (ownership_lost "the managed hierarchy has no restoration snapshot")
  restore_previous (some snapshot) = do
    same ← retry_busy sys (matches_current sys snapshot)
    if same then unit else restore_configuration sys snapshot

  abbrev disown : Action (Session W) (Unit {0})
  disown (m, w) = (ok tt, (record m { owns_hierarchy = false }, w))

  unfoldable pub close_inner : Action (Session W) (Unit {0})
  unfolding stop_all restore_previous
  close_inner (m, w) =
      (if m.owns_hierarchy
          then (do
            stop_all
            reading (λ m. verify sys m.ownership)
            reading (λ m. restore_previous m.previous)
            disown)
          else unit)
        (m, w)
