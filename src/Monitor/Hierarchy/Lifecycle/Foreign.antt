-- ===== src/Monitor/Hierarchy/Lifecycle/Foreign.antt =====
-- Stopping in src/monitor/hierarchy.rs where the threads that run are not the recorded ones.
use damon_rs.Common.{
  ℕ, zero, suc, ◌≡◌, ◌≢◌, inl, inr, refl, ap, sym, ◌∙◌, false, Option, none, some, List, arith,
  length, if◌then◌else◌,
}
use damon_rs.Error.{Error, Result, ok, err}
use damon_rs.Config.Pid.{Pid}
use damon_rs.Abi.KdamondState.{KdamondState, on, off, unknown}
use damon_rs.Sysfs.{Sysfs, kdamond_count, state, thread_id, pid}
use damon_rs.Sysfs.Actions.{Action, after}
use damon_rs.Sysfs.Paths.{FilePath}
use damon_rs.Sysfs.Ownership.{
  matches_skipping, matches_current_except, matches_current_under_except,
}
use damon_rs.Monitor.Retry.{retry, retry_busy}
use damon_rs.Monitor.Retry.Attempts.{retry_keeps}
use damon_rs.Monitor.Staged.{verify, verify_count, verify_kdamond_configuration}
use damon_rs.Monitor.Hierarchy.{
  KdamondSessionState, staged, running, unidentified_running, ManagedHierarchy, state_at, Session,
  keep, pid_eq,
}
use damon_rs.Monitor.Hierarchy.Lifecycle.{
  counted, recorded, first_error, stop_read, stop_current, stop_one, stop_owned, stop_each,
  stop_end, stop_all,
}
use damon_rs.Monitor.Hierarchy.Lifecycle.Stops.{Stops, stop_owned-Stopped}

module _ {W : Type 0} (sys : Sysfs W) where
  -- No recorded thread is one that the system reports.
  abbrev pub IsForeign : ManagedHierarchy → Type 0
  IsForeign m =
      (j : ℕ) (p q : Pid) (w : W)
      → state_at m.states j ≡ running p
      → (pid sys j w).0 ≡ ok (some q)
      → q.raw ≢ p.raw

  IsForeign-Stops : {m m' : ManagedHierarchy} → Stops m m' → IsForeign m → IsForeign m'
  IsForeign-Stops s h j p q w e r = elim (s.each j) [
    | inl f ↦ absurd (ground arith)
    | inr f ↦ h j p q w (sym f ∙ e) r
  ]

module _ {W : Type 0} (sys : Sysfs W) (write : FilePath → List ℕ → Action W (Unit {0})) where
  -- The same system, but for what a write does.
  abbrev other : Sysfs W
  other = record sys { write_bytes = write }

  same_state : (i : ℕ) (w : W) → retry_busy other (state other i) w ≡ retry_busy sys (state sys i) w
  unfolding retry_busy retry state
  same_state i w = refl

  same_count :
      (m : ManagedHierarchy) (w : W)
      → verify_count other m.ownership w ≡ verify_count sys m.ownership w
  unfolding verify_count kdamond_count
  same_count m w = refl

  same_configuration :
      (m : ManagedHierarchy) (i : ℕ) (w : W)
      → verify_kdamond_configuration other m.ownership i w
        ≡ verify_kdamond_configuration sys m.ownership i w
  unfolding verify_kdamond_configuration matches_current_under_except matches_skipping
  same_configuration m i w = refl

  same_verify :
      (m : ManagedHierarchy) (w : W) → verify other m.ownership w ≡ verify sys m.ownership w
  unfolding verify verify_count kdamond_count matches_current_except matches_skipping
  same_verify m w = refl

  same_pid : (i : ℕ) (w : W) → retry_busy other (pid other i) w ≡ retry_busy sys (pid sys i) w
  unfolding retry_busy retry pid thread_id
  same_pid i w = refl

  stop_current_same :
      (i : ℕ) (p : Pid) (m : ManagedHierarchy) (r : Result (Option Pid) × W)
      → ((q : Pid) → r.0 ≡ ok (some q) → q.raw ≢ p.raw)
      → after (keep m r) (stop_current other i p) ≡ after (keep m r) (stop_current sys i p)
  stop_current_same i p m (err e, w) h = refl
  stop_current_same i p m (ok none, w) h = refl
  stop_current_same i p m (ok (some q), w) h =
      let apart = h q refl in let differs : pid_eq q p ≡ false = ground arith in rw differs refl

  stop_read_same :
      (i : ℕ) (m : ManagedHierarchy) (w : W) (x : KdamondSessionState) (k : KdamondState)
      → ((p q : Pid) (w' : W) → x ≡ running p → (pid sys i w').0 ≡ ok (some q) → q.raw ≢ p.raw)
      → stop_read other i x k (m, w) ≡ stop_read sys i x k (m, w)
  unfolding stop_read
  stop_read_same i m w staged off h = refl
  stop_read_same i m w staged on h = refl
  stop_read_same i m w staged (unknown name) h = refl
  stop_read_same i m w (running p) off h = refl
  stop_read_same i m w (running p) on h =
      ap (λ (r : Result (Option Pid) × W). after (keep m r) (stop_current other i p)) (same_pid i w)
      ∙ stop_current_same i p m (retry_busy sys (pid sys i) w) λ q.
        retry_keeps sys (pid sys i) (λ (r : Result (Option Pid)). r ≡ ok (some q) → q.raw ≢ p.raw)
          (λ w' e. h p q w' refl e) w
  stop_read_same i m w (running p) (unknown name) h = refl
  stop_read_same i m w unidentified_running off h = refl
  stop_read_same i m w unidentified_running on h = refl
  stop_read_same i m w unidentified_running (unknown name) h = refl

  -- Two continuations that agree after a reading agree with it.
  reading_same :
      {A : Type 0} (m : ManagedHierarchy) (r r' : Result A × W)
      (f g : A → Action (Session W) (Unit {0}))
      → r' ≡ r
      → ((a : A) (w : W) → f a (m, w) ≡ g a (m, w))
      → after (keep m r') f ≡ after (keep m r) g
  reading_same {A} m r r' f g e h = ap (λ (x : Result A × W). after (keep m x) f) e ∙ branches r
    where
      branches : (x : Result A × W) → after (keep m x) f ≡ after (keep m x) g
      branches (err x, w) = refl
      branches (ok a, w) = h a w

  stop_owned_same :
      (i : ℕ) (m : ManagedHierarchy) (w : W)
      → IsForeign sys m
      → stop_owned other i (m, w) ≡ stop_owned sys i (m, w)
  unfolding stop_owned stop_one
  stop_owned_same i m w foreign =
      reading_same m (verify_kdamond_configuration sys m.ownership i w)
        (verify_kdamond_configuration other m.ownership i w) _ _ (same_configuration m i w)
        λ u w1.
          reading_same m (retry_busy sys (state sys i) w1) (retry_busy other (state other i) w1) _ _
            (same_state i w1)
            λ k w2.
              stop_read_same i m w2 (state_at m.states i) k (λ p q w' e r. foreign i p q w' e r)

  -- A loop's outcome after one kdamond's.
  recorded_same :
      (first : Option Error) (m : ManagedHierarchy) (r : Result (Unit {0}) × Session W)
      (f g : Option Error → Session W → Option Error × Session W)
      → Stops m r.1.0
      → IsForeign sys m
      → ((e : Option Error) (m' : ManagedHierarchy) (w : W)
          → IsForeign sys m'
          → f e (m', w) ≡ g e (m', w))
      → recorded other first f r ≡ recorded sys first g r
  recorded_same first m (r, (m', w)) f g s foreign h =
      h (first_error first r) m' w (IsForeign-Stops sys s foreign)

  counted_same :
      (first : Option Error) (m : ManagedHierarchy) (r r' : Result (Unit {0}) × W)
      (f g : Session W → Option Error × Session W)
      → r' ≡ r
      → ((w : W) → f (m, w) ≡ g (m, w))
      → counted other first f (keep m r') ≡ counted sys first g (keep m r)
  counted_same first m r r' f g e h =
      ap (λ (x : Result (Unit {0}) × W). counted other first f (keep m x)) e ∙ branches r
    where
      branches :
          (x : Result (Unit {0}) × W)
          → counted other first f (keep m x) ≡ counted sys first g (keep m x)
      branches (err x, w) = refl
      branches (ok u, w) = h w

  stop_each_same :
      (n : ℕ) (first : Option Error) (m : ManagedHierarchy) (w : W)
      → IsForeign sys m
      → stop_each other n first (m, w) ≡ stop_each sys n first (m, w)
  unfolding stop_each
  stop_each_same zero first m w foreign = refl
  stop_each_same (suc n) first m w foreign =
      counted_same first m (verify_count sys m.ownership w) (verify_count other m.ownership w)
        (λ t. recorded other first (stop_each other n) (stop_owned other n t))
        (λ t. recorded sys first (stop_each sys n) (stop_owned sys n t)) (same_count m w)
        λ w'.
          ap (recorded other first (stop_each other n)) (stop_owned_same n m w' foreign)
          ∙ recorded_same first m (stop_owned sys n (m, w')) (stop_each other n) (stop_each sys n)
              (stop_owned-Stopped sys n m w').0 foreign (stop_each_same n)

  stop_end_same : (out : Option Error × Session W) → stop_end other out ≡ stop_end sys out
  unfolding stop_end
  stop_end_same (some e, s) = refl
  stop_end_same (none, (m, w)) = ap (keep m) (same_verify m w)

  -- Where the system never reports a recorded thread, stopping the hierarchy gives no command:
  -- whatever a write would do, the outcome and the state that is left are the same.
  pub stop_all-Foreign :
      (m : ManagedHierarchy) (w : W)
      → IsForeign sys m
      → stop_all (record sys { write_bytes = write }) (m, w) ≡ stop_all sys (m, w)
  unfolding stop_all
  stop_all-Foreign m w foreign =
      let n = length m.states in
      ap (λ (x : Result (Unit {0}) × Session W). if m.owns_hierarchy then x else (ok tt, (m, w)))
        (reading_same m (verify_count sys m.ownership w) (verify_count other m.ownership w)
          (λ u s. stop_end other (stop_each other n none s))
          (λ u s. stop_end sys (stop_each sys n none s)) (same_count m w)
          λ u w'.
            ap (stop_end other) (stop_each_same n none m w' foreign)
            ∙ stop_end_same (stop_each sys n none (m, w')))
