-- ===== src/Examples/Session.antt =====
-- A session over one kdamond, whose system is only whether its thread runs.
use damon_rs.Common.{
  ℕ, zero, suc, ◌≡◌, refl, Bool, true, false, some, List, [], ◌∷◌, arith, if◌then◌else◌, codes, pos,
  negsuc,
}
use damon_rs.Error.{ok}
use damon_rs.Config.Pid
use damon_rs.Config.Pid.{Pid}
use damon_rs.Abi.KdamondState
use damon_rs.Abi.KdamondCommand
use damon_rs.Validate.{validate_token, is_blank}
use damon_rs.Sysfs.{Sysfs, kdamond_count, state, command, pid, thread_id}
use damon_rs.Sysfs.Paths.{name_eq}
use damon_rs.Sysfs.Ownership.{
  ConfigurationSnapshot, matches_current_under_except, matches_current, matches_current_except,
  capture_configuration, entries_eq,
}
use damon_rs.Sysfs.Ownership.Order.{take_while, drop_while, sort_by, filter_by}
use damon_rs.Monitor.Retry.{retry_busy, retry, is_busy}
use damon_rs.Monitor.Retry.Attempts.{Returned, retry_busy-Returned}
use damon_rs.Monitor.Staged.{verify, verify_kdamond_configuration}
use damon_rs.Monitor.Hierarchy.{KdamondSessionState, staged, running, ManagedHierarchy, state_at}
use damon_rs.Monitor.Hierarchy.Lifecycle.{start_all, stop_all, close_inner}
use damon_rs.Monitor.Hierarchy.Lifecycle.Stops.{AllStaged}
use damon_rs.Monitor.Hierarchy.Lifecycle.Starts.{Ends, start_all-Ends, close_inner-AllStaged}
use damon_rs.Monitor.Hierarchy.Lifecycle.Foreign.{IsForeign, stop_all-Foreign}
use damon_rs.Monitor.Hierarchy.Lifecycle.Reach.{started, closed, here, next, IsKept, Reach-IsKept}

abbrev toy : Sysfs Bool
toy = record {
  display = λ p. "path";
  display_value = λ n. "number";
  read_trimmed = λ p w. (ok (if w then "on" else "off"), w);
  read_usize = λ p w. (ok 1, w);
  read_i32 = λ p w. (ok (if w then pos 7 else negsuc 0), w);
  writable_files = λ p w. (ok [], w);
  read_text = λ p w. (ok [], w);
  read_configuration_value_equals = λ p v w. (ok true, w);
  write_bytes = λ p v w. (ok tt, name_eq v (codes "on"));
  sleep = λ n w. w;
}

abbrev empty_snapshot : ConfigurationSnapshot
empty_snapshot = record { root = []; fingerprint = [] }

abbrev handle : List KdamondSessionState → ManagedHierarchy
handle states = record {
  previous = some empty_snapshot;
  ownership = record { configuration = empty_snapshot; volatile_paths = []; kdamond_count = 1 };
  states = states;
  owns_hierarchy = true;
}

abbrev seven : Pid
seven = record { raw = 7 }

start_all-Ends_example :
    Ends toy (handle (staged ∷ [])) (start_all toy (handle (staged ∷ []), false))
start_all-Ends_example = start_all-Ends toy (handle (staged ∷ [])) false

retry_busy-Returned_example : Returned toy (pid toy 0) true (retry_busy toy (pid toy 0) true)
retry_busy-Returned_example = retry_busy-Returned toy (pid toy 0) true

session-IsKept : IsKept 1 (handle []).ownership (handle (staged ∷ []))
session-IsKept = record { counted = refl; owned = refl; released = λ e. cc }

Reach-IsKept_example :
    IsKept 1
      (handle []).ownership
      (close_inner toy (start_all toy (handle (staged ∷ []), false)).1).1.0
Reach-IsKept_example =
    Reach-IsKept toy 1 (handle []).ownership
      (next (next here (started (handle (staged ∷ []), false) _ refl)) (closed _ _ refl))
      session-IsKept

close_runs : (close_inner toy (handle (running seven ∷ []), true)).0 ≡ ok tt
unfolding close_inner stop_all retry_busy retry is_busy verify verify_kdamond_configuration
    matches_current_under_except take_while drop_while matches_current matches_current_except
    capture_configuration sort_by filter_by entries_eq kdamond_count state state_at pid thread_id
    command KdamondState.parse KdamondState.of_name KdamondCommand.kernel_name Pid.new
    validate_token is_blank name_eq
close_runs = refl

close_inner-AllStaged_example :
    AllStaged (close_inner toy (handle (running seven ∷ []), true)).1.0
    × ((close_inner toy (handle (running seven ∷ []), true)).1.0.owns_hierarchy ≡ false)
close_inner-AllStaged_example =
    close_inner-AllStaged toy (handle (running seven ∷ [])) true refl close_runs

abbrev nine : Pid
nine = record { raw = 9 }

thread_seven : (j : ℕ) (q : Pid) (w : Bool) → (pid toy j w).0 ≡ ok (some q) → q.raw ≡ 7
unfolding pid thread_id Pid.new
thread_seven j q true h = ground arith
thread_seven j q false h = ground arith

recorded_nine : (j : ℕ) (p : Pid) → state_at (running nine ∷ []) j ≡ running p → p.raw ≡ 9
unfolding state_at
recorded_nine zero p h = ground arith
recorded_nine (suc j) p h = absurd (ground arith)

nine-IsForeign : IsForeign toy (handle (running nine ∷ []))
nine-IsForeign j p q w h k e =
    let a = thread_seven j q w k in let b = recorded_nine j p h in absurd (omega arith)

stop_all-Foreign_example :
    stop_all (record toy { write_bytes = λ p v w. (ok tt, w) }) (handle (running nine ∷ []), true)
    ≡ stop_all toy (handle (running nine ∷ []), true)
stop_all-Foreign_example =
    stop_all-Foreign toy (λ p v w. (ok tt, w)) (handle (running nine ∷ [])) true nine-IsForeign
