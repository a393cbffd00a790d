-- ===== src/Monitor/Staged.antt =====
-- `StagedOwnership`, `running_thread_pid`, `ensure_hierarchy_stopped` and `restore_configuration`
-- of src/monitor/ownership.rs.
use damon_rs.Common.{ℕ, zero, suc, Option, none, some, List, ◌==◌, if◌then◌else◌}
use damon_rs.Error.{
  Result, ok, err, not_running, kdamond_running, unexpected_kdamond_state, ownership_lost,
}
use damon_rs.Config.Pid.{Pid}
use damon_rs.Abi.KdamondState.{on, off, unknown}
use damon_rs.Sysfs.{Sysfs, kdamond_count, state, pid, kdamond_path}
use damon_rs.Sysfs.Actions.{Action, ◌>>=◌, ◌>>◌, fail, unit}
use damon_rs.Sysfs.Paths.{FilePath}
use damon_rs.Sysfs.Ownership.{
  ConfigurationSnapshot, matches_current, matches_current_except, matches_current_under_except,
  matches_complete_current_except, restore,
}
use damon_rs.Monitor.Retry.{retry_busy}

pub record StagedOwnership : Type 0 where
  pub configuration : ConfigurationSnapshot
  pub volatile_paths : List FilePath
  pub kdamond_count : ℕ

unfoldable pub with_configuration : StagedOwnership → ConfigurationSnapshot → StagedOwnership
with_configuration self configuration = record self { configuration = configuration }

module _ {W : Type 0} (sys : Sysfs W) where
  unfoldable pub verify_count : StagedOwnership → Action W (Unit {0})
  verify_count self = do
    count ← kdamond_count sys
    if count == self.kdamond_count
        then unit
        else fail (ownership_lost "the staged kdamond count changed")

  unfoldable pub verify : StagedOwnership → Action W (Unit {0})
  unfolding verify_count
  verify self = do
    verify_count self
    same ← matches_current_except sys self.configuration.fingerprint self.volatile_paths
    if same then unit else fail (ownership_lost "the staged writable configuration changed")

  unfoldable pub verify_complete : StagedOwnership → Action W (Unit {0})
  unfolding verify_count
  verify_complete self = do
    verify_count self
    same ← matches_complete_current_except sys self.configuration self.volatile_paths
    if same then unit else fail (ownership_lost "the complete staged writable hierarchy changed")

  unfoldable pub verify_kdamond_configuration : StagedOwnership → ℕ → Action W (Unit {0})
  verify_kdamond_configuration self i = do
    same ←
        matches_current_under_except sys self.configuration.fingerprint (kdamond_path i)
          self.volatile_paths
    if same then unit else fail (ownership_lost "the staged writable configuration changed")

  -- `ok_or` of the thread that a running kdamond exposes
  abbrev pub some_or : {A : Type 0} → Option A → Result A → Action W A
  some_or (some a) r w = (ok a, w)
  some_or none r w = (r, w)

  unfoldable pub running_thread_pid : ℕ → Action W Pid
  running_thread_pid i = do
    s ← retry_busy sys (state sys i)
    elim s [
      | off ↦ fail not_running
      | unknown name ↦ fail (unexpected_kdamond_state name)
      | on ↦ do
        p ← retry_busy sys (pid sys i)
        some_or p (err (ownership_lost "a running kdamond did not expose a kernel-thread ID"))
    ]

  -- The loop over the kdamonds, with those that are left and the index.
  unfoldable pub each_stopped : ℕ → ℕ → Action W (Unit {0})
  each_stopped zero i = unit
  each_stopped (suc left) i =
      let rest = each_stopped left (suc i) in
      do
        s ← state sys i
        elim s [
          | off ↦ rest
          | on ↦ fail (kdamond_running i)
          | unknown name ↦ fail (unexpected_kdamond_state name)
        ]

  unfoldable pub ensure_hierarchy_stopped : Action W (Unit {0})
  unfolding each_stopped
  ensure_hierarchy_stopped = do
    count ← kdamond_count sys
    each_stopped count 0
    again ← kdamond_count sys
    if again == count
        then unit
        else fail (ownership_lost "the kdamond count changed while checking transaction safety")

  unfoldable pub restore_configuration : ConfigurationSnapshot → Action W (Unit {0})
  restore_configuration snapshot = do
    retry_busy sys ensure_hierarchy_stopped
    retry_busy sys (do ensure_hierarchy_stopped; restore sys snapshot)
    retry_busy sys ensure_hierarchy_stopped
    same ← retry_busy sys (matches_current sys snapshot)
    if same
        then unit
        else fail (ownership_lost "the restored DAMON hierarchy changed during verification")
