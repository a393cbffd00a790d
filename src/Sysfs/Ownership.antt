-- ===== src/Sysfs/Ownership.antt =====
-- src/sysfs/ownership.rs: fingerprints of the writable configuration, and its restoration. A
-- component of a path is UTF-8, as sysfs has it.
pub mod Order
pub mod Restore
use damon_rs.Common.{
  ℕ, suc, ◌+◌, Bool, true, false, ◌&&◌, ◌||◌, not, Option, none, some, unwrap_or, List, [], ◌∷◌,
  ◌++◌, any, map, ltb, ◌==◌, bool_eq, if◌then◌else◌, codes, length,
}
use damon_rs.Error.{Result, ok, err, invalid_receipt, ownership_lost}
use damon_rs.Sysfs.Actions.{Action, ◌>>=◌, ◌>>◌, pure, fail, unit}
use damon_rs.Sysfs.Paths.{Name, FilePath, name_eq, path_eq, path_lt, starts_with, is_found}
use damon_rs.Sysfs.{Sysfs}
use Order.{sort_by, drop_while, take_while, dedup, filter_by, last, parent, strip_prefix}

pub record ConfigurationEntry : Type 0 where
  pub path : FilePath
  pub value : List ℕ

abbrev pub ConfigurationFingerprint : Type 0
ConfigurationFingerprint = List ConfigurationEntry

pub record ConfigurationSnapshot : Type 0 where
  pub root : FilePath
  pub fingerprint : ConfigurationFingerprint

unfoldable pub entry_eq : ConfigurationEntry → ConfigurationEntry → Bool
entry_eq a b = path_eq a.path b.path && name_eq a.value b.value

unfoldable pub entries_eq : List ConfigurationEntry → List ConfigurationEntry → Bool
unfolding entry_eq
entries_eq [] [] = true
entries_eq [] (b ∷ bs) = false
entries_eq (a ∷ xs) [] = false
entries_eq (a ∷ xs) (b ∷ bs) = entry_eq a b && entries_eq xs bs

unfoldable pub equals_except :
    ConfigurationFingerprint → ConfigurationFingerprint → List FilePath → Bool
unfolding entries_eq
equals_except self other ignored =
    entries_eq (filter_by (λ e. not (is_found e.path ignored)) self)
      (filter_by (λ e. not (is_found e.path ignored)) other)

-- `file_name` starts with `nr_`.
abbrev has_count_prefix : Name → Bool
has_count_prefix (a ∷ b ∷ c ∷ rest) = (a == 110) && (b == 114) && (c == 95)
has_count_prefix _ = false

unfoldable pub is_reconstruction_count : FilePath → Bool
is_reconstruction_count path = elim (last path) [
  | none ↦ false
  | some file ↦ has_count_prefix file && not (name_eq file (codes "nr_accesses_permil"))
]

abbrev ends_with : FilePath → Name → Name → Bool
ends_with path dir file = elim (last path) [
  | none ↦ false
  | some f ↦ elim (last (parent path)) [ none ↦ false | some d ↦ name_eq d dir && name_eq f file ]
]

unfoldable pub is_runtime_attribute : FilePath → Bool
is_runtime_attribute relative =
    elim (last relative) [
      | none ↦ false
      | some f ↦
          name_eq f (codes "state")
          || name_eq f (codes "pid")
          || name_eq f (codes "avail_operations")
    ]
    || any (λ c. name_eq c (codes "tried_regions")) relative
    || ends_with relative (codes "quotas") (codes "effective_bytes")
    || (elim (last (parent relative)) [ none ↦ false | some d ↦ name_eq d (codes "stats") ]
        && not (ends_with relative (codes "stats") (codes "max_nr_snapshots")))

-- The order of `restoration_key`: the depth, counts first, the path.
unfoldable pub depth : FilePath → ConfigurationEntry → ℕ
depth root e = length (strip_prefix root e.path)

unfoldable pub restores_before : FilePath → ConfigurationEntry → ConfigurationEntry → Bool
unfolding is_reconstruction_count
restores_before root a b =
    let count_a = is_reconstruction_count (strip_prefix root a.path) in
    let count_b = is_reconstruction_count (strip_prefix root b.path) in
    ltb (depth root a) (depth root b)
    || ((depth root a == depth root b)
        && ((count_a && not count_b) || (bool_eq count_a count_b && path_lt a.path b.path)))

unfoldable pub paths_affected_by_write : ConfigurationSnapshot → FilePath → List FilePath
paths_affected_by_write self write =
    write
    ∷ (if is_reconstruction_count (strip_prefix self.root write)
        then map (λ e. e.path) (filter_by (λ e. starts_with e.path (parent write)) self.fingerprint)
        else [])

affected : ConfigurationSnapshot → List FilePath → List FilePath
unfolding paths_affected_by_write
affected self [] = []
affected self (write ∷ writes) = paths_affected_by_write self write ++ affected self writes

unfoldable pub paths_affected_by_writes : ConfigurationSnapshot → List FilePath → List FilePath
unfolding affected
paths_affected_by_writes self writes = dedup (sort_by path_lt (affected self writes))

-- `read_configuration_value` drops one newline at the end.
unfoldable pub without_newline : List ℕ → List ℕ
without_newline [] = []
without_newline (b ∷ []) = if b == 10 then [] else b ∷ []
without_newline (b ∷ c ∷ bs) = b ∷ without_newline (c ∷ bs)

module _ {W : Type 0} (sys : Sysfs W) where
  -- The loops that compare the entries, each of which skips some.
  unfoldable pub matches_skipping :
      (ConfigurationEntry → Bool) → List ConfigurationEntry → Action W Bool
  matches_skipping skip [] = pure true
  matches_skipping skip (e ∷ es) =
      let rest = matches_skipping skip es in
      if skip e then rest else do
        equal ← sys.read_configuration_value_equals e.path e.value
        if equal then rest else pure false

  unfoldable pub matches_current_except : ConfigurationFingerprint → List FilePath → Action W Bool
  unfolding matches_skipping
  matches_current_except self ignored = matches_skipping (λ e. is_found e.path ignored) self

  unfoldable pub matches_current_under_except :
      ConfigurationFingerprint → FilePath → List FilePath → Action W Bool
  unfolding matches_skipping
  matches_current_under_except self root ignored =
      matches_skipping (λ e. is_found e.path ignored)
        (take_while (λ e. starts_with e.path root) (drop_while (λ e. path_lt e.path root) self))

  unfoldable pub matches_current_outside_except :
      ConfigurationFingerprint → FilePath → List FilePath → Action W Bool
  unfolding matches_skipping
  matches_current_outside_except self ignored_root ignored =
      matches_skipping (λ e. starts_with e.path ignored_root || is_found e.path ignored) self

  unfoldable pub read_configuration_value : FilePath → Action W (List ℕ)
  unfolding without_newline
  read_configuration_value path = do value ← sys.read_text path; pure (without_newline value)

  unfoldable pub capture_entries : List FilePath → Action W (List ConfigurationEntry)
  unfolding read_configuration_value
  capture_entries [] = pure []
  capture_entries (path ∷ paths) =
      let rest = capture_entries paths in
      do
        value ← read_configuration_value path
        entries ← rest
        pure (record { path = path; value = value } ∷ entries)

  unfoldable pub capture_configuration : FilePath → Action W ConfigurationFingerprint
  unfolding capture_entries
  capture_configuration root = do
    paths ← sys.writable_files root
    capture_entries
        (sort_by path_lt (filter_by (λ p. not (is_runtime_attribute (strip_prefix root p))) paths))

  unfoldable pub capture : FilePath → Action W ConfigurationSnapshot
  unfolding capture_configuration
  capture root = do
    entries ← capture_configuration root
    pure (record { root = root; fingerprint = entries })

  unfoldable pub matches_complete_current_except :
      ConfigurationSnapshot → List FilePath → Action W Bool
  unfolding capture_configuration
  matches_complete_current_except self ignored = do
    current ← capture_configuration self.root
    pure (equals_except self.fingerprint current ignored)

  unfoldable pub matches_current : ConfigurationSnapshot → Action W Bool
  unfolding capture_configuration
  matches_current self = do
    current ← capture_configuration self.root
    pure (entries_eq current self.fingerprint)

  -- `is_reconstruction_count(path) || !read_configuration_value_equals(path, value)?`
  unfoldable pub needs_write : ConfigurationEntry → Action W Bool
  needs_write e =
      if is_reconstruction_count e.path
      then pure true
      else do equal ← sys.read_configuration_value_equals e.path e.value; pure (not equal)

  unfoldable pub restore_entry : ConfigurationEntry → Action W (Unit {0})
  unfolding needs_write
  restore_entry e = do write ← needs_write e; if write then sys.write_bytes e.path e.value else unit

  unfoldable pub restore_entries : List FilePath → List ConfigurationEntry → Action W (Unit {0})
  unfolding restore_entry
  restore_entries ignored [] = unit
  restore_entries ignored (e ∷ es) =
      let rest = restore_entries ignored es in
      if is_found e.path ignored then rest else (do restore_entry e; rest)

  unfoldable pub restore_except : ConfigurationSnapshot → List FilePath → Action W (Unit {0})
  unfolding restore_entries matches_current_except
  restore_except self ignored = do
    restore_entries ignored (sort_by (restores_before self.root) self.fingerprint)
    same ← matches_current_except self.fingerprint ignored
    if same
        then unit
        else fail
            (ownership_lost "the restored hierarchy does not match its captured configuration")

  unfoldable pub restore : ConfigurationSnapshot → Action W (Unit {0})
  unfolding restore_except
  restore self = restore_except self []

  unfoldable pub restore_paths_except :
      ConfigurationSnapshot → List FilePath → List FilePath → Action W (Unit {0})
  unfolding restore_entries matches_skipping
  restore_paths_except self paths ignored = do
    restore_entries ignored (
        sort_by (restores_before self.root)
          (filter_by (λ e. is_found e.path paths) self.fingerprint))
    same ←
        matches_skipping (λ e. not (is_found e.path paths) || is_found e.path ignored)
          self.fingerprint
    if same
        then unit
        else fail (ownership_lost "a transaction path changed during partial rollback")
