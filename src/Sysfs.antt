-- ===== src/Sysfs.antt =====
-- src/sysfs/admin.rs: the typed handles of the admin directory and of a kdamond directory. What
-- the functions of src/sysfs/io.rs return is a parameter: each answer may change with the state of
-- the system, which other controllers change too.
pub mod Capabilities
pub mod Actions
pub mod Paths
pub mod Ownership
use damon_rs.Common.{
  ℕ, Bool, Option, none, some, String, List, [], ◌∷◌, ◌++◌, ℤ, pos, negsuc, codes,
}
use damon_rs.Error.{Result, ok, err, invalid_kernel_value}
use damon_rs.Config.Pid
use damon_rs.Config.Pid.{Pid}
use damon_rs.Abi.KdamondState
use damon_rs.Abi.KdamondState.{KdamondState}
use damon_rs.Abi.KdamondCommand
use damon_rs.Abi.KdamondCommand.{KdamondCommand}
use damon_rs.Validate.{validate_token}
use Actions.{Action, ◌>>=◌, ◌>>◌, pure, lift}
use Paths.{FilePath, decimal}

-- The file system and the clock, in the state `W`.
pub record Sysfs (W : Type 0) : Type 0 where
  pub display : FilePath → String
  pub display_value : ℤ → String
  -- `read_text(path)?.trim()`
  pub read_trimmed : FilePath → Action W String
  pub read_usize : FilePath → Action W ℕ
  pub read_i32 : FilePath → Action W ℤ
  -- `all_files_recursive`, those that `path_is_writable`
  pub writable_files : FilePath → Action W (List FilePath)
  pub read_text : FilePath → Action W (List ℕ)
  pub read_configuration_value_equals : FilePath → List ℕ → Action W Bool
  pub write_bytes : FilePath → List ℕ → Action W (Unit {0})
  -- `std::thread::sleep`, in milliseconds
  pub sleep : ℕ → W → W

unfoldable pub kdamond_path : ℕ → FilePath
kdamond_path i = codes "kdamonds" ∷ decimal i ∷ []

module _ {W : Type 0} (sys : Sysfs W) where
  unfoldable pub kdamond_count : Action W ℕ
  kdamond_count = sys.read_usize (codes "kdamonds" ∷ codes "nr_kdamonds" ∷ [])

  unfoldable pub state : ℕ → Action W KdamondState
  state i = do
    value ← sys.read_trimmed (kdamond_path i ++ codes "state" ∷ [])
    lift (KdamondState.parse value)

  unfoldable pub command : ℕ → KdamondCommand → Action W (Unit {0})
  command i c = do
    lift (validate_token "kdamond command" (KdamondCommand.kernel_name c))
    sys.write_bytes (kdamond_path i ++ codes "state" ∷ []) (codes (KdamondCommand.kernel_name c))

  -- The number is negative where the kdamond has no thread.
  unfoldable pub thread_id : FilePath → ℤ → Result (Option Pid)
  thread_id path (negsuc n) = ok none
  thread_id path (pos raw) = elim (Pid.new raw) [
    | ok p ↦ ok (some p)
    | err e ↦
        err (
          invalid_kernel_value (sys.display path) (sys.display_value (pos raw))
            "a process ID or -1")
  ]

  unfoldable pub pid : ℕ → Action W (Option Pid)
  pid i = do
    raw ← sys.read_i32 (kdamond_path i ++ codes "pid" ∷ [])
    lift (thread_id (kdamond_path i ++ codes "pid" ∷ []) raw)
