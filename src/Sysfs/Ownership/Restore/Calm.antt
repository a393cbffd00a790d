-- ===== src/Sysfs/Ownership/Restore/Calm.antt =====
-- How captured files answer the restoration of src/sysfs/ownership.rs, and what the restoration of one
-- of them leaves.
use damon_rs.Common.{
  Bool, sym, ℕ, ◌≤◌, ◌<◌, ◌≡◌, ◌≢◌, ◌⊎◌, inl, inr, refl, true, false, Option, some, List, ap, ◌∙◌,
  Bool-cases, length,
}
use damon_rs.Error.{Error, Result, ok, err}
use damon_rs.Sysfs.{Sysfs}
use damon_rs.Sysfs.Paths.{FilePath, name_eq, name_eq_iff, is_found}
use damon_rs.Sysfs.Ownership.{
  ConfigurationEntry, is_reconstruction_count, depth, needs_write, restore_entry,
}
use damon_rs.Sysfs.Ownership.Order.{Has, strip_prefix}

abbrev pub depth_of : FilePath → FilePath → ℕ
depth_of root path = length (strip_prefix root path)

-- How the captured files answer while no one else writes: `file` is the content of a path. A read or
-- a write may fail, with any error and any effect; this is about those that succeed.
pub record IsCalm {W : Type 0} (sys : Sysfs W) (file : FilePath → W → Option (List ℕ))
    (root : FilePath) (entries : List ConfigurationEntry) : Type 0 where
  pub compares :
      (e : ConfigurationEntry) (c : List ℕ) (w w' : W) (b : Bool)
      → Has e entries
      → file e.path w ≡ some c
      → sys.read_configuration_value_equals e.path e.value w ≡ (ok b, w')
      → (b ≡ name_eq c e.value) × (w' ≡ w)
  -- The kernel holds a value that it reported before once it accepts it again. Accepting a count may
  -- change what lies deeper, any other value only its file.
  pub writes :
      (e : ConfigurationEntry) (c : List ℕ) (w w' : W)
      → Has e entries
      → file e.path w ≡ some c
      → sys.write_bytes e.path e.value w ≡ (ok tt, w')
      → (file e.path w' ≡ some e.value)
        × ((q : FilePath)
            → q ≢ e.path
            → (depth_of root q ≤ depth_of root e.path) ⊎ (is_reconstruction_count e.path ≡ false)
            → file q w' ≡ file q w)

-- An answer is a value or an error.
pub answered {ℓ} :
    {A : Type ℓ} {W : Type 0} (r : Result A × W)
    → ((a : A) × (w : W) × (r ≡ (ok a, w))) ⊎ ((error : Error) × (w : W) × (r ≡ (err error, w)))
answered (ok a, w) = inl (a, w, refl)
answered (err error, w) = inr (error, w, refl)

-- The comparison or the write of a captured value failed with the error, in some state.
pub data Fault {W : Type 0} (sys : Sysfs W) (entries : List ConfigurationEntry) (error : Error)
    : Type 0 where
  read_fault :
      (e : ConfigurationEntry) (w w' : W)
      → Has e entries
      → sys.read_configuration_value_equals e.path e.value w ≡ (err error, w')
      → Fault sys entries error
  write_fault :
      (e : ConfigurationEntry) (w w' : W)
      → Has e entries
      → sys.write_bytes e.path e.value w ≡ (err error, w')
      → Fault sys entries error

-- It returns `a` and leaves what satisfies `P`, or it returns the error of a fault.
abbrev pub EndsWith {ℓ} :
    {A : Type ℓ} {W : Type 0}
    → Sysfs W
    → List ConfigurationEntry
    → A
    → (W → Type 0)
    → Result A × W
    → Type ℓ
EndsWith sys entries a P r =
    ((w' : _) × (r ≡ (ok a, w')) × P w')
    ⊎ ((error : Error) × (w' : _) × (r ≡ (err error, w')) × Fault sys entries error)

module _ {W : Type 0} (file : FilePath → W → Option (List ℕ)) (ignored : List FilePath) where
  abbrev pub Holds : W → ConfigurationEntry → Type 0
  Holds w e = (is_found e.path ignored ≡ true) ⊎ (file e.path w ≡ some e.value)

  -- A captured file exists where the shallower captured files have their values.
  abbrev pub Appears : FilePath → List ConfigurationEntry → Type 0
  Appears root entries =
      (e : ConfigurationEntry) (w : W)
      → Has e entries
      → ((p : ConfigurationEntry) → Has p entries → depth root p < depth root e → Holds w p)
      → (c : List ℕ) × (file e.path w ≡ some c)

abbrev pub Distinct : List ConfigurationEntry → Type 0
Distinct entries =
    (a b : ConfigurationEntry) → Has a entries → Has b entries → a.path ≡ b.path → a ≡ b

module _ {W : Type 0} (sys : Sysfs W) (file : FilePath → W → Option (List ℕ)) (root : FilePath)
    (whole : List ConfigurationEntry) (calm : IsCalm sys file root whole) where
  -- What one entry's restoration leaves.
  abbrev pub Restored : ConfigurationEntry → W → W → Type 0
  Restored e w w' =
      (file e.path w' ≡ some e.value)
      × ((q : FilePath)
          → q ≢ e.path
          → depth_of root q ≤ depth_of root e.path
          → file q w' ≡ file q w)

  abbrev Ends : (W → Type 0) → Result (Unit {0}) × W → Type 0
  Ends = EndsWith sys whole tt

  write_entry :
      (e : ConfigurationEntry) (w : W) (c : List ℕ)
      → Has e whole
      → file e.path w ≡ some c
      → Ends (Restored e w) (sys.write_bytes e.path e.value w)
  write_entry e w c m h = elim (answered (sys.write_bytes e.path e.value w)) [
    | inl (u, w', put) ↦
        let stored = calm.writes e c w w' m h put in
        inl (w', put, (stored.0, λ q n d. stored.1 q n (inl d)))
    | inr (error, w', put) ↦ inr (error, w', put, write_fault e w w' m put)
  ]

  pub restore_entry_lem :
      (e : ConfigurationEntry) (w : W) (c : List ℕ)
      → Has e whole
      → file e.path w ≡ some c
      → Ends (Restored e w) (restore_entry sys e w)
  unfolding restore_entry needs_write
  restore_entry_lem e w c m h = elim (Bool-cases (is_reconstruction_count e.path)) [
    | inl count ↦ rw count (write_entry e w c m h)
    | inr plain ↦ elim (answered (sys.read_configuration_value_equals e.path e.value w)) [
      | inr (error, w', read) ↦ inr (error, w', rw (plain, read) refl, read_fault e w w' m read)
      | inl (b, w', read) ↦
          let (same, still) = calm.compares e c w w' b m h read in
          elim (Bool-cases b) [
            | inl held ↦ inl (
              w',
              rw (plain, read, held) refl,
              (
                rw still (h ∙ ap some ((name_eq_iff c e.value).0 (sym same ∙ held))),
                λ q n d. rw still refl,
              ),
            )
            | inr changed ↦ rw (plain, read, changed, still) (write_entry e w c m h)
          ]
    ]
  ]
