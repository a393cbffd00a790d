-- ===== src/Io/Write.antt =====
-- Writing a value, and the journal of writes, of src/sysfs/io.rs. What the calls of `open` and
-- `write` return is given.
pub mod Journal
use damon_rs.Common.{
  ℕ, Option, none, some, String, List, [], ◌∷◌, ◌++◌, length, unwrap_or, ◌==◌, if◌then◌else◌,
}
use damon_rs.Error.{Result, ok, err, IoErrorKind, interrupted, write_zero, io, done}

-- What one call of `write` returns: the number of bytes, or an error.
pub data Attempt : Type 0 where
  wrote : ℕ → Attempt
  failed : IoErrorKind → Attempt

-- `none` while every call was interrupted: the loop goes on.
unfoldable pub write_once : List Attempt → String → List ℕ → Option (Result (Unit {0}))
write_once [] path value = none
write_once (wrote written ∷ attempts) path value =
    some (if written == length value then done else err (io "write complete value" path write_zero))
write_once (failed interrupted ∷ attempts) path value = write_once attempts path value
write_once (failed kind ∷ attempts) path value = some (err (io "write" path kind))

-- `WRITE_JOURNAL`: the paths written, where a journal is kept.
abbrev pub Journal : Type 0
Journal = Option (List String)

unfoldable pub record_write : String → Journal → Journal
record_write path none = none
record_write path (some paths) = some (paths ++ path ∷ [])

-- A call of `write_bytes`, with what the system answers.
pub record Write : Type 0 where
  pub path : String
  pub value : List ℕ
  pub open_error : Option IoErrorKind
  pub attempts : List Attempt

finish_write : String → Option (Result (Unit {0})) → Journal → Option (Result (Unit {0}) × Journal)
unfolding record_write
finish_write path none journal = none
finish_write path (some (err e)) journal = some (err e, journal)
finish_write path (some (ok u)) journal = some (done, record_write path journal)

unfoldable pub write_bytes : Write → Journal → Option (Result (Unit {0}) × Journal)
unfolding finish_write
write_bytes w journal = elim w.open_error [
  | some kind ↦ some (err (io "open for writing" w.path kind), journal)
  | none ↦ finish_write w.path (write_once w.attempts w.path w.value) journal
]

-- A chain of writes with `?`.
unfoldable pub write_all : List Write → Journal → Option (Result (Unit {0}) × Journal)
write_all [] journal = some (done, journal)
write_all (w ∷ ws) journal = elim (write_bytes w journal) [
  | none ↦ none
  | some (err e, journal') ↦ some (err e, journal')
  | some (ok u, journal') ↦ write_all ws journal'
]

pub data Collected (T : Type 0) : Type 0 where
  -- the result, the paths, and the journal that is left
  returned : T → List String → Journal → Collected T
  -- the assertion that journals are not nested fails
  nested : Collected T
  running : Collected T

unfoldable pub collect_writes :
    {T : Type 0} → (Journal → Option (T × Journal)) → Journal → Collected T
collect_writes operation (some paths) = nested
collect_writes operation none = elim (operation (some [])) [
  | none ↦ running
  | some (result, journal) ↦ returned result (unwrap_or journal []) none
]
