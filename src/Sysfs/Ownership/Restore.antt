-- ===== src/Sysfs/Ownership/Restore.antt =====
-- What the restoration of src/sysfs/ownership.rs leaves in the files, where no other controller
-- writes. Rewriting a count may rebuild the directories below it, with new values there.
pub mod Calm
use damon_rs.Common.{
  Bool, sym, ℕ, ◌≤◌, ◌<◌, ◌≡◌, ◌≢◌, ◌⊎◌, inl, inr, refl, true, false, Option, some, List, [], ◌∷◌,
  ap, ◌∙◌, arith, Bool-cases, All, Pairwise, length,
}
use damon_rs.Error.{Error, Result, ok, err}
use damon_rs.Sysfs.{Sysfs}
use damon_rs.Sysfs.Paths.{FilePath, name_eq, name_eq_iff, path_eq, path_eq_iff, is_found}
use damon_rs.Sysfs.Ownership.{
  ConfigurationEntry, ConfigurationSnapshot, is_reconstruction_count, depth, restores_before,
  matches_skipping, matches_current_except, needs_write, restore_entry, restore_entries,
  restore_except,
}
use damon_rs.Sysfs.Ownership.Order.{Has, sort_by, Has-sort_by, Pairwise-sort_by, strip_prefix}
use damon_rs.Sysfs.Ownership.Restore.Calm.{
  depth_of, IsCalm, answered, Fault, read_fault, write_fault, EndsWith, Holds, Appears, Distinct,
  restore_entry_lem,
}

below_of_before :
    (root : FilePath) (a b : ConfigurationEntry)
    → restores_before root a b ≡ true
    → depth root a ≤ depth root b
unfolding restores_before
below_of_before root a b h = ground arith

above_of_before :
    (root : FilePath) (a b : ConfigurationEntry)
    → restores_before root a b ≡ false
    → depth root b ≤ depth root a
unfolding restores_before
above_of_before root a b h = ground arith

All-Has : {A : Type 0} (P : A → Type 0) (xs : List A) (x : A) → All P xs → Has x xs → P x
All-Has P [] x h k = absurd k
All-Has P (y ∷ ys) x h (inl e) = rw e h.0
All-Has P (y ∷ ys) x h (inr k) = All-Has P ys x h.1 k

module _ {W : Type 0} (sys : Sysfs W) (file : FilePath → W → Option (List ℕ)) (root : FilePath)
    (whole : List ConfigurationEntry) (calm : IsCalm sys file root whole)
    (ignored : List FilePath) where
  abbrev Ends : (W → Type 0) → Result (Unit {0}) × W → Type 0
  Ends = EndsWith sys whole tt

  module _ (distinct : Distinct whole) (appears : Appears file ignored root whole) where
    -- Each entry is still to come, or holds and lies no deeper than those to come.
    abbrev IsDone : List ConfigurationEntry → W → Type 0
    IsDone es w =
        (p : ConfigurationEntry)
        → Has p whole
        → Has p es
          ⊎ (Holds file ignored w p
              × ((e : ConfigurationEntry) → Has e es → depth root p ≤ depth root e))

    abbrev Deepens : List ConfigurationEntry → Type 0
    Deepens = Pairwise (λ a b. depth root a ≤ depth root b)

    step_IsDone :
        (e : ConfigurationEntry) (es : List ConfigurationEntry) (w w' : W)
        → Has e whole
        → Deepens (e ∷ es)
        → Holds file ignored w' e
        → ((q : FilePath)
            → q ≢ e.path
            → depth_of root q ≤ depth_of root e.path
            → file q w' ≡ file q w)
        → IsDone (e ∷ es) w
        → IsDone es w'
    unfolding depth
    step_IsDone e es w w' m order holds keeps d p k = elim (d p k) [
      | inl (inl p_is_e) ↦ inr (
        rw p_is_e holds,
        λ x hx. rw p_is_e (All-Has (λ b. depth root e ≤ depth root b) es x order.0 hx),
      )
      | inl (inr later) ↦ inl later
      | inr (held, deeper) ↦ inr (
        elim (Bool-cases (path_eq p.path e.path)) [
          | inl same ↦ rw (distinct p e k m ((path_eq_iff p.path e.path).0 same)) holds
          | inr other ↦ elim held [
            | inl skipped ↦ inl skipped
            | inr value ↦ inr (
                keeps p.path (λ x. cc (other, (path_eq_iff p.path e.path).1 x))
                  (deeper e (inl refl))
                ∙ value)
          ]
        ],
        λ x hx. deeper x (inr hx),
      )
    ]

    exists_next :
        (e : ConfigurationEntry) (es : List ConfigurationEntry) (w : W)
        → Has e whole
        → Deepens (e ∷ es)
        → IsDone (e ∷ es) w
        → (c : List ℕ) × (file e.path w ≡ some c)
    exists_next e es w m order d = appears e w m λ p k less. elim (d p k) [
      | inl (inl p_is_e) ↦ let same = ap (depth root) p_is_e in absurd (omega arith)
      | inl (inr later) ↦
          let no_deeper = All-Has (λ b. depth root e ≤ depth root b) es p order.0 later in
          absurd (omega arith)
      | inr (held, deeper) ↦ held
    ]

    restore_entries_lem :
        (es : List ConfigurationEntry) (w : W)
        → Deepens es
        → ((e : ConfigurationEntry) → Has e es → Has e whole)
        → IsDone es w
        → Ends (IsDone []) (restore_entries sys ignored es w)
    unfolding restore_entries
    restore_entries_lem [] w order from d = inl (w, refl, d)
    restore_entries_lem (e ∷ es) w order from d =
        let m = from e (inl refl) in
        elim (Bool-cases (is_found e.path ignored)) [
          | inl skipped ↦ rw skipped (
              restore_entries_lem es w order.1 (λ x hx. from x (inr hx))
                (step_IsDone e es w w m order (inl skipped) (λ q n k. refl) d))
          | inr kept ↦
              let c = exists_next e es w m order d in
              elim (restore_entry_lem sys file root whole calm e w c.0 m c.1) [
                | inr (error, w', failed, fault) ↦ inr (error, w', rw (kept, failed) refl, fault)
                | inl (w', done, stored) ↦
                    rw (kept, done)
                      (restore_entries_lem es w' order.1 (λ x hx. from x (inr hx))
                        (step_IsDone e es w w' m order (inr stored.0) stored.1 d))
              ]
        ]

    matches_held :
        (es : List ConfigurationEntry) (w : W)
        → ((e : ConfigurationEntry) → Has e es → Has e whole)
        → ((e : ConfigurationEntry) → Has e es → Holds file ignored w e)
        → EndsWith sys whole true
            (λ w'. w' ≡ w)
            (matches_skipping sys (λ e. is_found e.path ignored) es w)
    unfolding matches_skipping
    matches_held [] w from held = inl (w, refl, refl)
    matches_held (e ∷ es) w from held =
        let rest = matches_held es w (λ x hx. from x (inr hx)) (λ x hx. held x (inr hx)) in
        elim (Bool-cases (is_found e.path ignored)) [
          | inl skipped ↦ rw skipped rest
          | inr kept ↦ elim (held e (inl refl)) [
            | inl skipped ↦ cc (skipped, kept)
            | inr value ↦ elim (answered (sys.read_configuration_value_equals e.path e.value w)) [
              | inr (error, w', read) ↦
                  inr (error, w', rw (kept, read) refl, read_fault e w w' (from e (inl refl)) read)
              | inl (b, w', read) ↦
                  let (same, still) =
                    calm.compares e e.value w w' b (from e (inl refl)) value read in
                  let held_value = same ∙ (name_eq_iff e.value e.value).1 refl in
                  rw (kept, read, held_value, still) rest
            ]
          ]
        ]

-- For a snapshot with distinct paths, while no other controller writes, the file system holds
-- each captured value that it accepts, a comparison that succeeds is right, only an accepted
-- count changes other files, all of them deeper, and a captured file exists once the shallower
-- captured files have their values: the restoration ends, and either leaves every captured file
-- that is not ignored with its captured value, also where rewriting a count rebuilds the
-- directories below it, or returns the error with which a comparison or a write of a captured
-- value failed.
pub restore_except-Restores :
    {W : Type 0} (sys : Sysfs W) (file : FilePath → W → Option (List ℕ))
    (snapshot : ConfigurationSnapshot) (ignored : List FilePath) (w : W)
    → IsCalm sys file snapshot.root snapshot.fingerprint
    → Distinct snapshot.fingerprint
    → Appears file ignored snapshot.root snapshot.fingerprint
    → EndsWith sys snapshot.fingerprint tt
        (λ w'. (e : ConfigurationEntry) → Has e snapshot.fingerprint → Holds file ignored w' e)
        (restore_except sys snapshot ignored w)
unfolding restore_except matches_current_except
restore_except-Restores sys file snapshot ignored w calm distinct appears =
    let root = snapshot.root in
    let whole = snapshot.fingerprint in
    let sorted = sort_by (restores_before root) whole in
    let member = Has-sort_by (restores_before root) whole in
    let order =
      Pairwise-sort_by (restores_before root) (depth root) (below_of_before root)
        (above_of_before root) whole in
    elim (restore_entries_lem sys file root whole calm ignored distinct appears sorted w order
      (λ e h. (member e).0 h) (λ p k. inl ((member p).1 k))) [
        | inr (error, w', failed, fault) ↦ inr (error, w', rw failed refl, fault)
        | inl (w', done, all) ↦
            let held : (e : ConfigurationEntry) → Has e whole → Holds file ignored w' e =
              λ e h. elim (all e h) [ inl k ↦ absurd k | inr (k, d) ↦ k ] in
            elim (matches_held sys file root whole calm ignored distinct appears whole w' (λ e h. h)
              held) [
                | inr (error, w2, failed, fault) ↦ inr (error, w2, rw (done, failed) refl, fault)
                | inl (w2, matched, still) ↦ inl (w2, rw (done, matched) refl, rw still held)
              ]
      ]
