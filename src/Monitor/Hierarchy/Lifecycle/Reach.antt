-- ===== src/Monitor/Hierarchy/Lifecycle/Reach.antt =====
-- What may happen to a session of src/monitor/hierarchy.rs: its methods, in any order, and between
-- them whatever the system and other controllers do. A persistent start gives a handle up while
-- its kdamonds run (`disarm_cleanup`), and ends its session: it is no step.
use damon_rs.Common.{
  ℕ, ◌≡◌, inl, inr, refl, sym, subst, Bool-cases, ◌∙◌, true, false, arith, if_rule, length,
}
use damon_rs.Error.{Error, Result, ok, err, not_running}
use damon_rs.Sysfs.{Sysfs}
use damon_rs.Sysfs.Actions.{Action, after, ◌>>◌}
use damon_rs.Monitor.Staged.{StagedOwnership, verify}
use damon_rs.Monitor.Hierarchy.{
  ManagedHierarchy, Session, keep, reading, reading_rule, verify_owned_state,
}
use damon_rs.Monitor.Hierarchy.Lifecycle.{
  start_each, start_ready, start_staged, start_all, rolled_back, or_rollback, rollback_started,
  stop_all, close_inner, restore_previous, disown,
}
use damon_rs.Monitor.Hierarchy.Lifecycle.Stops.{
  Stops, AllStaged, StopsAll, stop_all-StopsAll, rollback_started-StopsAll,
}
use damon_rs.Monitor.Hierarchy.Lifecycle.Starts.{
  Starts, start_each-Run, IsReady, start_ready-IsReady,
}

module _ {W : Type 0} (sys : Sysfs W) where
  -- The steps, each with the session that a method leaves, whether or not it fails.
  pub data Step : Session W → Session W → Type 0 where
    started : (s t : Session W) → (start_all sys s).1 ≡ t → Step s t
    stopped : (s t : Session W) → (stop_all sys s).1 ≡ t → Step s t
    closed : (s t : Session W) → (close_inner sys s).1 ≡ t → Step s t
    elsewhere : (m : ManagedHierarchy) (w w' : W) → Step (m, w) (m, w')

  pub data Reach (s : Session W) : Session W → Type 0 where
    here : Reach s s
    next : {t u : Session W} → Reach s t → Step t u → Reach s u

-- The handle keeps the count and the staged configuration of its hierarchy, and has no running
-- kdamond once it has given the hierarchy up.
pub record IsKept (count : ℕ) (ownership : StagedOwnership) (m : ManagedHierarchy) : Type 0 where
  pub counted : length m.states ≡ count
  pub owned : m.ownership ≡ ownership
  pub released : m.owns_hierarchy ≡ false → AllStaged m

module _ {W : Type 0} (sys : Sysfs W) (count : ℕ) (ownership : StagedOwnership) where
  abbrev Kept : Result (Unit {0}) × Session W → Type 0
  Kept out = IsKept count ownership out.1.0

  -- An owning handle stays one, so that nothing is said of its kdamonds.
  IsKept-owning :
      (m m' : ManagedHierarchy)
      → IsKept count ownership m
      → m.owns_hierarchy ≡ true
      → length m'.states ≡ length m.states
      → m'.ownership ≡ m.ownership
      → m'.owns_hierarchy ≡ m.owns_hierarchy
      → IsKept count ownership m'
  IsKept-owning m m' k owns l o w = record {
    counted = l ∙ k.counted;
    owned = o ∙ k.owned;
    released = λ e. ground arith;
  }

  Stops-IsKept :
      (m m' : ManagedHierarchy)
      → IsKept count ownership m
      → m.owns_hierarchy ≡ true
      → Stops m m'
      → IsKept count ownership m'
  Stops-IsKept m m' k owns s = IsKept-owning m m' k owns s.length_same s.ownership_same s.owns_same

  stop_gone :
      (m : ManagedHierarchy) (w : W)
      → m.owns_hierarchy ≡ false
      → stop_all sys (m, w) ≡ (ok tt, (m, w))
  unfolding stop_all
  stop_gone m w gone = if_rule (λ x. x ≡ (ok tt, (m, w))) m.owns_hierarchy (λ owns. cc) (λ e. refl)

  close_gone :
      (m : ManagedHierarchy) (w : W)
      → m.owns_hierarchy ≡ false
      → close_inner sys (m, w) ≡ (ok tt, (m, w))
  unfolding close_inner
  close_gone m w gone =
      if_rule {A = Action (Session W) (Unit {0})} (λ f. f (m, w) ≡ (ok tt, (m, w))) m.owns_hierarchy
        (λ owns. cc) (λ e. refl)

  start_gone :
      (m : ManagedHierarchy) (w : W)
      → m.owns_hierarchy ≡ false
      → start_all sys (m, w) ≡ (err not_running, (m, w))
  unfolding start_all start_ready
  start_gone m w gone =
      if_rule {A = Action (Session W) (Unit {0})}
        (λ f.
          after (f (m, w)) (λ u s. or_rollback sys (start_staged sys s))
          ≡ (err not_running, (m, w)))
        m.owns_hierarchy (λ owns. absurd (ground arith)) (λ e. refl)

  stop_all-IsKept :
      (m : ManagedHierarchy) (w : W) → IsKept count ownership m → Kept (stop_all sys (m, w))
  stop_all-IsKept m w k = elim (Bool-cases m.owns_hierarchy) [
    | inl owns ↦ Stops-IsKept m _ k owns (stop_all-StopsAll sys m w owns).0
    | inr gone ↦ subst Kept (sym (stop_gone m w gone)) k
  ]

  closing-IsKept :
      (m : ManagedHierarchy) (r : Result (Unit {0}) × Session W)
      → m.owns_hierarchy ≡ true
      → IsKept count ownership m
      → StopsAll sys m r
      → Kept (
          after r λ u.
            reading (λ m. verify sys m.ownership)
            >> (reading (λ m. restore_previous sys m.previous) >> disown sys))
  closing-IsKept m (err e, (m', w)) owns k s = Stops-IsKept m m' k owns s.0
  closing-IsKept m (ok u, (m', w)) owns k s =
      let still = Stops-IsKept m m' k owns s.0 in
      reading_rule Kept m' (verify sys m'.ownership w) _ (λ e w'. still)
        λ u w'.
          reading_rule Kept m' (restore_previous sys m'.previous w') _ (λ e w''. still)
            λ v w''. record {
              counted = still.counted;
              owned = still.owned;
              released = λ e. s.1 refl;
            }

  close_inner-IsKept :
      (m : ManagedHierarchy) (w : W) → IsKept count ownership m → Kept (close_inner sys (m, w))
  unfolding close_inner
  close_inner-IsKept m w k =
      if_rule {A = Action (Session W) (Unit {0})} (λ f. Kept (f (m, w))) m.owns_hierarchy
        (λ owns. closing-IsKept m (stop_all sys (m, w)) owns k (stop_all-StopsAll sys m w owns))
        (λ gone. k)

  rolled_back-IsKept :
      (m : ManagedHierarchy) (operation : Error) (r : Result (Unit {0}) × Session W)
      → IsKept count ownership m
      → m.owns_hierarchy ≡ true
      → StopsAll sys m r
      → Kept (rolled_back sys operation r)
  unfolding rolled_back
  rolled_back-IsKept m operation (r, (m', w)) k owns s = Stops-IsKept m m' k owns s.0

  or_rollback-IsKept :
      (r : Result (Unit {0}) × Session W)
      → Kept r
      → r.1.0.owns_hierarchy ≡ true
      → Kept (or_rollback sys r)
  unfolding or_rollback
  or_rollback-IsKept (ok u, (m, w)) k owns = k
  or_rollback-IsKept (err e, (m, w)) k owns =
      rolled_back-IsKept m e (rollback_started sys (m, w)) k owns
        (rollback_started-StopsAll sys m w)

  start_staged-Starts : (m : ManagedHierarchy) (w : W) → Starts 0 m (start_staged sys (m, w)).1.0
  unfolding start_staged
  start_staged-Starts m w =
      ends (start_each sys (length m.states) 0 (m, w))
        (start_each-Run sys (length m.states) 0 m w (omega arith)).0
    where
      verified :
          (m' : ManagedHierarchy) (r : Result (Unit {0}) × W)
          → Starts 0 m m'
          → Starts 0 m (keep m' r).1.0
      verified m' (r, w') s = s

      ends :
          (r : Result (Unit {0}) × Session W)
          → Starts 0 m r.1.0
          → Starts 0 m (after r (λ u. reading (λ m. verify_owned_state sys m))).1.0
      ends (err e, s) k = k
      ends (ok u, (m', w')) k = verified m' (verify_owned_state sys m' w') k

  started-IsKept :
      (m : ManagedHierarchy) (r : Result (Unit {0}) × Session W)
      → IsKept count ownership m
      → m.owns_hierarchy ≡ true
      → IsReady sys m r
      → Kept (after r (λ u s. or_rollback sys (start_staged sys s)))
  started-IsKept m (err e, (m', w)) k owns ready = rw ready.0 k
  started-IsKept m (ok u, (m', w)) k owns ready =
      let s = start_staged-Starts m w in
      rw ready.0 (
        or_rollback-IsKept (start_staged sys (m, w))
          (IsKept-owning m _ k owns s.length_same s.ownership_same s.owns_same)
          (s.owns_same ∙ owns))

  start_all-IsKept :
      (m : ManagedHierarchy) (w : W) → IsKept count ownership m → Kept (start_all sys (m, w))
  unfolding start_all
  start_all-IsKept m w k = elim (Bool-cases m.owns_hierarchy) [
    | inl owns ↦ started-IsKept m (start_ready sys (m, w)) k owns (start_ready-IsReady sys m w)
    | inr gone ↦ subst Kept (sym (start_gone m w gone)) k
  ]

  pub Step-IsKept :
      {s t : Session W} → Step sys s t → IsKept count ownership s.0 → IsKept count ownership t.0
  Step-IsKept (started (m, w) t e) k = rw (← e) (start_all-IsKept m w k)
  Step-IsKept (stopped (m, w) t e) k = rw (← e) (stop_all-IsKept m w k)
  Step-IsKept (closed (m, w) t e) k = rw (← e) (close_inner-IsKept m w k)
  Step-IsKept (elsewhere m w w') k = k

  -- Whatever starts, stops, closes and changes of the system happen to a session, its handle
  -- keeps the count of kdamonds and the ownership record, and once it has given the hierarchy up
  -- each of its kdamonds is staged, where this held at first.
  pub Reach-IsKept :
      {s t : Session W} → Reach sys s t → IsKept count ownership s.0 → IsKept count ownership t.0
  Reach-IsKept here k = k
  Reach-IsKept (next r step) k = Step-IsKept step (Reach-IsKept r k)
