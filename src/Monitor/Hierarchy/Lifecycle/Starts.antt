-- ===== src/Monitor/Hierarchy/Lifecycle/Starts.antt =====
-- What starting and closing leave of a session, of src/monitor/hierarchy.rs.
use damon_rs.Common.{
  ℕ, zero, suc, ◌+◌, ◌≤◌, ◌<◌, ◌≡◌, ◌⊎◌, inl, inr, refl, ◌∙◌, true, false, List, [], ◌∷◌, arith, ap,
  ltb, Bool-cases, if_rule, length, set_elem,
}
use damon_rs.Error.{Error, Result, ok, err, rollback}
use damon_rs.Config.Pid.{Pid}
use damon_rs.Abi.KdamondCommand
use damon_rs.Sysfs.{Sysfs, command}
use damon_rs.Sysfs.Actions.{Action, after, ◌>>◌}
use damon_rs.Monitor.Retry.{retry_busy, with_rollback}
use damon_rs.Monitor.Staged.{verify, verify_count, verify_kdamond_configuration, running_thread_pid}
use damon_rs.Monitor.Hierarchy.{
  KdamondSessionState, running, unidentified_running, ManagedHierarchy, state_at, Session, keep,
  reading, reading_rule, verify_running_identity_only, verify_owned_state,
}
use damon_rs.Monitor.Hierarchy.Lifecycle.{
  start_one, start_owned, start_each, start_ready, start_staged, start_all, rolled_back,
  or_rollback, check_staged, check_off, stop_all, close_inner, restore_previous, disown,
  rollback_started,
}
use damon_rs.Monitor.Hierarchy.Lifecycle.Stops.{
  state_at-set_elem_other, length-set_elem, AllStaged, StopsAll, stop_all-StopsAll,
  rollback_started-StopsAll,
}

pub state_at-set_elem_self :
    (xs : List KdamondSessionState) (i : ℕ) (x : KdamondSessionState)
    → i < length xs
    → state_at (set_elem xs i x) i ≡ x
unfolding state_at
state_at-set_elem_self [] i x h = absurd (omega arith)
state_at-set_elem_self (y ∷ ys) zero x h = refl
state_at-set_elem_self (y ∷ ys) (suc i) x h = state_at-set_elem_self ys i x (omega arith)

abbrev pub IsRunning : ManagedHierarchy → ℕ → Type 0
IsRunning m j = (p : Pid) × (state_at m.states j ≡ running p)

-- Only the session states from an index on differ.
pub record Starts (i : ℕ) (m m' : ManagedHierarchy) : Type 0 where
  pub previous_same : m'.previous ≡ m.previous
  pub ownership_same : m'.ownership ≡ m.ownership
  pub owns_same : m'.owns_hierarchy ≡ m.owns_hierarchy
  pub length_same : length m'.states ≡ length m.states
  pub below : (j : ℕ) → j < i → state_at m'.states j ≡ state_at m.states j

Starts-refl : (i : ℕ) (m : ManagedHierarchy) → Starts i m m
Starts-refl i m = record {
  previous_same = refl;
  ownership_same = refl;
  owns_same = refl;
  length_same = refl;
  below = λ j h. refl;
}

Starts-trans :
    (i k : ℕ) {m m' m'' : ManagedHierarchy}
    → i ≤ k
    → Starts i m m'
    → Starts k m' m''
    → Starts i m m''
Starts-trans i k le s t = record {
  previous_same = t.previous_same ∙ s.previous_same;
  ownership_same = t.ownership_same ∙ s.ownership_same;
  owns_same = t.owns_same ∙ s.owns_same;
  length_same = t.length_same ∙ s.length_same;
  below = λ j h. t.below j (omega arith) ∙ s.below j h;
}

Starts-set_elem :
    (i : ℕ) (m : ManagedHierarchy) (x : KdamondSessionState)
    → Starts i m (record m { states = set_elem m.states i x })
Starts-set_elem i m x = record {
  previous_same = refl;
  ownership_same = refl;
  owns_same = refl;
  length_same = length-set_elem m.states i x;
  below = λ j h. state_at-set_elem_other m.states i j x (λ e. omega arith);
}

module _ {W : Type 0} (sys : Sysfs W) where
  -- The handle of one start, whose success leaves the kdamond running.
  abbrev Started : ℕ → ManagedHierarchy → Result (Unit {0}) × Session W → Type 0
  Started i m out = Starts i m out.1.0 × (out.0 ≡ ok tt → IsRunning out.1.0 i)

  reading-Started :
      {A : Type 0} (i : ℕ) (m m' : ManagedHierarchy) (r : Result A × W)
      (next : A → Action (Session W) (Unit {0}))
      → Starts i m m'
      → ((a : A) (w : W) → Started i m (next a (m', w)))
      → Started i m (after (keep m' r) next)
  reading-Started i m m' r next s = reading_rule (Started i m) m' r next (λ e w. (s, λ k. cc))

  last-Started :
      (i : ℕ) (m m' : ManagedHierarchy) (r : Result (Unit {0}) × W)
      → Starts i m m'
      → IsRunning m' i
      → Started i m (keep m' r)
  last-Started i m m' (r, w) s h = (s, λ e. h)

  start_owned-Started :
      (i : ℕ) (m : ManagedHierarchy) (w : W)
      → i < length m.states
      → Started i m (start_owned sys i (m, w))
  unfolding start_owned start_one
  start_owned-Started i m w inside =
      let same = Starts-refl i m in
      let m1 = record m { states = set_elem m.states i unidentified_running } in
      let unidentified = Starts-set_elem i m unidentified_running in
      reading-Started i m m (verify_count sys m.ownership w) _ same λ u w1.
        reading-Started i m m (verify_kdamond_configuration sys m.ownership i w1) _ same λ v w2.
          reading-Started i m m (retry_busy sys (command sys i KdamondCommand.on) w2) _ same λ c w3.
            reading-Started i m m1 (running_thread_pid sys i w3) _ unidentified λ p w4.
              let m2 = record m1 { states = set_elem m1.states i (running p) } in
              let started =
                Starts-trans i i (omega arith) unidentified (Starts-set_elem i m1 (running p)) in
              let runs : IsRunning m2 i = (
                p,
                state_at-set_elem_self m1.states i (running p)
                    (let same_length = unidentified.length_same in omega arith),
              ) in
              reading-Started i m m2 (verify_running_identity_only sys m2 i w4) _ started λ x w5.
                last-Started i m m2 (verify_kdamond_configuration sys m2.ownership i w5) started
                  runs

  -- The handle of a run of starts, whose success leaves the kdamonds of the run running.
  abbrev pub Run : ℕ → ℕ → ManagedHierarchy → Result (Unit {0}) × Session W → Type 0
  Run left i m out =
      Starts i m out.1.0 × (out.0 ≡ ok tt → (j : ℕ) → i ≤ j → j < left + i → IsRunning out.1.0 j)

  one_more-Run :
      (left i : ℕ) (m : ManagedHierarchy) (r : Result (Unit {0}) × Session W)
      (next : Action (Session W) (Unit {0}))
      → Started i m r
      → ((w : W) → Run left (suc i) r.1.0 (next (r.1.0, w)))
      → Run (suc left) i m (after r (λ u. next))
  one_more-Run left i m (err e, s) next h k = (h.0, λ e. cc)
  one_more-Run left i m (ok u, (m', w)) next h k =
      let rest = k w in
      (
        Starts-trans i (suc i) (omega arith) h.0 rest.0,
        λ e j low high. elim (Bool-cases (ltb i j)) [
          | inl later ↦ rest.1 e j (ground arith) (omega arith)
          | inr first ↦
              let here = h.1 refl in
              let same : j ≡ i = ground arith in
              (
                here.0,
                ap (state_at (next (m', w)).1.0.states) same
                    ∙ rest.0.below i (omega arith)
                    ∙ here.1,
              )
        ],
      )

  pub start_each-Run :
      (left i : ℕ) (m : ManagedHierarchy) (w : W)
      → left + i ≤ length m.states
      → Run left i m (start_each sys left i (m, w))
  unfolding start_each
  start_each-Run zero i m w inside = (Starts-refl i m, λ e j low high. absurd (omega arith))
  start_each-Run (suc left) i m w inside =
      let first = start_owned-Started i m w (omega arith) in
      one_more-Run left i m (start_owned sys i (m, w)) (start_each sys left (suc i)) first (λ w'.
        start_each-Run left (suc i) (start_owned sys i (m, w)).1.0 w'
          (let same = first.0.length_same in omega arith))

  abbrev pub AllRunning : ManagedHierarchy → ManagedHierarchy → Type 0
  AllRunning m m' =
      (length m'.states ≡ length m.states) × ((j : ℕ) → j < length m.states → IsRunning m' j)

  start_staged-AllRunning :
      (m : ManagedHierarchy) (w : W)
      → (start_staged sys (m, w)).0 ≡ ok tt
      → AllRunning m (start_staged sys (m, w)).1.0
  unfolding start_staged
  start_staged-AllRunning m w =
      ends (start_each sys (length m.states) 0 (m, w))
        (start_each-Run (length m.states) 0 m w (omega arith))
    where
      verified :
          (m' : ManagedHierarchy) (r : Result (Unit {0}) × W)
          → AllRunning m m'
          → (keep m' r).0 ≡ ok tt
          → AllRunning m (keep m' r).1.0
      verified m' (r, w') h e = h

      ends :
          (r : Result (Unit {0}) × Session W)
          → Run (length m.states) 0 m r
          → (after r (λ u. reading (λ m. verify_owned_state sys m))).0 ≡ ok tt
          → AllRunning m (after r (λ u. reading (λ m. verify_owned_state sys m))).1.0
      ends (err e, s) k h = cc
      ends (ok u, (m', w')) k h =
          verified m' (verify_owned_state sys m' w')
            (k.0.length_same, λ j b. k.1 refl j (omega arith) (omega arith)) h

  -- How a start ends.
  abbrev pub Ends : ManagedHierarchy → Result (Unit {0}) × Session W → Type 0
  Ends m out =
      (out.0 ≡ ok tt → (m.owns_hierarchy ≡ true) × AllRunning m out.1.0)
      × ((e : Error)
          → out.0 ≡ err e
          → (out.1.0 ≡ m)
            ⊎ AllStaged out.1.0
            ⊎ ((operation : Error) × (failed : Error) × (e ≡ rollback operation failed)))

  rolled_back-Ends :
      (m m' : ManagedHierarchy) (operation : Error) (r : Result (Unit {0}) × Session W)
      → StopsAll sys m' r
      → Ends m (rolled_back sys operation r)
  unfolding rolled_back with_rollback
  rolled_back-Ends m m' operation (ok u, s) h = (λ e. cc, λ e h'. inr (inl (h.1 refl)))
  rolled_back-Ends m m' operation (err f, s) h =
      (λ e. cc, λ e h'. inr (inr (operation, f, ground arith)))

  or_rollback-Ends :
      (m : ManagedHierarchy) (r : Result (Unit {0}) × Session W)
      → m.owns_hierarchy ≡ true
      → (r.0 ≡ ok tt → AllRunning m r.1.0)
      → Ends m (or_rollback sys r)
  unfolding or_rollback
  or_rollback-Ends m (ok u, s) owns h = (λ e. (owns, h refl), λ e k. cc)
  or_rollback-Ends m (err f, (m', w)) owns h =
      rolled_back-Ends m m' f (rollback_started sys (m', w)) (rollback_started-StopsAll sys m' w)

  -- The checks before the starts leave the handle as it is.
  abbrev pub IsReady : ManagedHierarchy → Result (Unit {0}) × Session W → Type 0
  IsReady m out = (out.1.0 ≡ m) × (out.0 ≡ ok tt → m.owns_hierarchy ≡ true)

  pub start_ready-IsReady : (m : ManagedHierarchy) (w : W) → IsReady m (start_ready sys (m, w))
  unfolding start_ready
  start_ready-IsReady m w =
      if_rule {A = Action (Session W) (Unit {0})} (λ f. IsReady m (f (m, w))) m.owns_hierarchy
        (λ owns. checked owns _ (check_staged sys 0 m.states) λ u.
          reading_rule (IsReady m) m (verify sys m.ownership w) _ (λ e w'. (refl, λ k. owns))
            λ v w'. last owns (check_off sys (length m.states) 0 w'))
        (λ e. (refl, λ k. cc))
    where
      last : m.owns_hierarchy ≡ true → (r : Result (Unit {0}) × W) → IsReady m (keep m r)
      last owns (r, w') = (refl, λ k. owns)

      checked :
          m.owns_hierarchy ≡ true
          → (next : Unit {0} → Action (Session W) (Unit {0})) (r : Result (Unit {0}))
          → ((u : Unit {0}) → IsReady m (next u (m, w)))
          → IsReady m (after (r, (m, w)) next)
      checked owns next (err e) h = (refl, λ k. owns)
      checked owns next (ok u) h = h u

  -- Starting every kdamond succeeds only for an owning handle, and then every kdamond is running
  -- under a recorded thread. A start that fails changes no session state, or leaves every kdamond
  -- staged, or reports that its rollback failed too.
  pub start_all-Ends : (m : ManagedHierarchy) (w : W) → Ends m (start_all sys (m, w))
  unfolding start_all
  start_all-Ends m w = ends (start_ready sys (m, w)) (start_ready-IsReady m w)
    where
      ends :
          (r : Result (Unit {0}) × Session W)
          → IsReady m r
          → Ends m (after r (λ u s. or_rollback sys (start_staged sys s)))
      ends (err e, (m', w')) h = (λ k. cc, λ f k. inl h.0)
      ends (ok u, (m', w')) h =
          rw h.0 (
            or_rollback-Ends m (start_staged sys (m, w')) (h.1 refl) (start_staged-AllRunning m w'))

  abbrev Closed : Result (Unit {0}) × Session W → Type 0
  Closed out = out.0 ≡ ok tt → AllStaged out.1.0 × (out.1.0.owns_hierarchy ≡ false)

  restored-Closed :
      (m : ManagedHierarchy) (r : Result (Unit {0}) × W)
      → AllStaged m
      → Closed (after (keep m r) (λ u. disown sys))
  restored-Closed m r h = reading_rule Closed m r _ (λ e w k. cc) λ u w k. (h, refl)

  -- A close of an owning handle that succeeds leaves it without ownership, and every kdamond
  -- staged.
  pub close_inner-AllStaged :
      (m : ManagedHierarchy) (w : W)
      → m.owns_hierarchy ≡ true
      → (close_inner sys (m, w)).0 ≡ ok tt
      → AllStaged (close_inner sys (m, w)).1.0
        × ((close_inner sys (m, w)).1.0.owns_hierarchy ≡ false)
  unfolding close_inner
  close_inner-AllStaged m w owns =
      if_rule {A = Action (Session W) (Unit {0})} (λ f. Closed (f (m, w))) m.owns_hierarchy
        (λ e. ends (stop_all sys (m, w)) (stop_all-StopsAll sys m w owns)) (λ e. cc)
    where
      ends :
          (r : Result (Unit {0}) × Session W)
          → StopsAll sys m r
          → Closed (
              after r (λ u.
                reading (λ m. verify sys m.ownership)
                >> (reading (λ m. restore_previous sys m.previous) >> disown sys)))
      ends (err e, s) h = λ k. cc
      ends (ok u, (m', w')) h =
          reading_rule Closed m' (verify sys m'.ownership w') _ (λ e w'' k. cc)
            λ u w''. restored-Closed m' (restore_previous sys m'.previous w'') (h.1 refl)
