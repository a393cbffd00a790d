-- ===== src/Monitor/Hierarchy/Lifecycle/Stops.antt =====
-- What stopping leaves of a session, of src/monitor/hierarchy.rs.
use damon_rs.Common.{
  ℕ, zero, suc, ◌≤◌, ◌<◌, ◌≡◌, ◌≢◌, ◌⊎◌, inl, inr, refl, ap, ◌∙◌, true, Option, none, some, List,
  [], ◌∷◌, arith, Bool-cases, if_rule, ltb, ltb→lt, length, set_elem, all, ◌==◌,
}
use damon_rs.Error.{Error, Result, ok, err, not_running}
use damon_rs.Abi.KdamondCommand
use damon_rs.Abi.KdamondState.{KdamondState, on, off, unknown}
use damon_rs.Sysfs.{Sysfs, state, pid, command}
use damon_rs.Sysfs.Actions.{Action, after}
use damon_rs.Monitor.Retry.{retry_busy}
use damon_rs.Monitor.Staged.{some_or, verify, verify_count, verify_kdamond_configuration}
use damon_rs.Monitor.Hierarchy.{
  KdamondSessionState, staged, running, unidentified_running, ManagedHierarchy, state_at, Session,
  keep, reading_rule, same_thread,
}
use damon_rs.Monitor.Hierarchy.Lifecycle.{
  is_staged, first_error, counted, recorded, stopped_after, stop_read, stop_one, stop_owned,
  stop_each, stop_end, stop_all, rollback_each, rollback_end, rollback_started,
}

pub state_at-set_elem_staged :
    (xs : List KdamondSessionState) (i : ℕ) → state_at (set_elem xs i staged) i ≡ staged
unfolding state_at
state_at-set_elem_staged [] i = refl
state_at-set_elem_staged (x ∷ xs) zero = refl
state_at-set_elem_staged (x ∷ xs) (suc i) = state_at-set_elem_staged xs i

pub state_at-set_elem_other :
    (xs : List KdamondSessionState) (i j : ℕ) (x : KdamondSessionState)
    → i ≢ j
    → state_at (set_elem xs i x) j ≡ state_at xs j
unfolding state_at
state_at-set_elem_other [] i j y h = refl
state_at-set_elem_other (x ∷ xs) zero zero y h = absurd (h refl)
state_at-set_elem_other (x ∷ xs) zero (suc j) y h = refl
state_at-set_elem_other (x ∷ xs) (suc i) zero y h = refl
state_at-set_elem_other (x ∷ xs) (suc i) (suc j) y h =
    state_at-set_elem_other xs i j y (λ e. h (ap suc e))

ℕ-cases : (i j : ℕ) → (i ≡ j) ⊎ (i ≢ j)
ℕ-cases i j = elim (Bool-cases (i == j)) [
  | inl e ↦ inl (ground arith)
  | inr e ↦ inr (λ p. ground arith)
]

state_at_beyond : (xs : List KdamondSessionState) (j : ℕ) → length xs ≤ j → state_at xs j ≡ staged
unfolding state_at
state_at_beyond [] j h = refl
state_at_beyond (x ∷ xs) zero h = absurd (omega arith)
state_at_beyond (x ∷ xs) (suc j) h = state_at_beyond xs j (omega arith)

is_staged_lem : (x : KdamondSessionState) → is_staged x ≡ true → x ≡ staged
is_staged_lem staged h = refl
is_staged_lem (running p) h = cc
is_staged_lem unidentified_running h = cc

all_staged_lem :
    (xs : List KdamondSessionState) (j : ℕ) → all is_staged xs ≡ true → state_at xs j ≡ staged
unfolding state_at
all_staged_lem [] j h = refl
all_staged_lem (x ∷ xs) zero h = is_staged_lem x (ground arith)
all_staged_lem (x ∷ xs) (suc j) h = all_staged_lem xs j (ground arith)

pub length-set_elem :
    (xs : List KdamondSessionState) (i : ℕ) (x : KdamondSessionState)
    → length (set_elem xs i x) ≡ length xs
length-set_elem [] i y = refl
length-set_elem (x ∷ xs) zero y = refl
length-set_elem (x ∷ xs) (suc i) y = ap suc (length-set_elem xs i y)

-- The second handle is the first with some kdamonds, perhaps none, back in the staged state.
pub record Stops (m m' : ManagedHierarchy) : Type 0 where
  pub previous_same : m'.previous ≡ m.previous
  pub ownership_same : m'.ownership ≡ m.ownership
  pub owns_same : m'.owns_hierarchy ≡ m.owns_hierarchy
  pub length_same : length m'.states ≡ length m.states
  pub each :
      (j : ℕ) → (state_at m'.states j ≡ staged) ⊎ (state_at m'.states j ≡ state_at m.states j)

pub Stops-refl : (m : ManagedHierarchy) → Stops m m
Stops-refl m = record {
  previous_same = refl;
  ownership_same = refl;
  owns_same = refl;
  length_same = refl;
  each = λ j. inr refl;
}

pub Stops-trans : {m m' m'' : ManagedHierarchy} → Stops m m' → Stops m' m'' → Stops m m''
Stops-trans s t = record {
  previous_same = t.previous_same ∙ s.previous_same;
  ownership_same = t.ownership_same ∙ s.ownership_same;
  owns_same = t.owns_same ∙ s.owns_same;
  length_same = t.length_same ∙ s.length_same;
  each = λ j. elim (t.each j) [
    | inl e ↦ inl e
    | inr e ↦ elim (s.each j) [ inl f ↦ inl (e ∙ f) | inr f ↦ inr (e ∙ f) ]
  ];
}

pub Stops-staged :
    {m m' : ManagedHierarchy}
    → Stops m m'
    → (j : ℕ) → state_at m.states j ≡ staged
    → state_at m'.states j ≡ staged
Stops-staged s j h = elim (s.each j) [ inl e ↦ e | inr e ↦ e ∙ h ]

Stops-set_elem :
    (m : ManagedHierarchy) (i : ℕ) → Stops m (record m { states = set_elem m.states i staged })
Stops-set_elem m i = record {
  previous_same = refl;
  ownership_same = refl;
  owns_same = refl;
  length_same = length-set_elem m.states i staged;
  each = λ j. elim (ℕ-cases i j) [
    | inl e ↦ inl (rw (← e) (state_at-set_elem_staged m.states i))
    | inr n ↦ inr (state_at-set_elem_other m.states i j staged n)
  ];
}

first_error-none :
    (first : Option Error) (r : Result (Unit {0}))
    → first_error first r ≡ none
    → (first ≡ none) × (r ≡ ok tt)
first_error-none (some e) r h = cc
first_error-none none (err e) h = cc
first_error-none none (ok u) h = (refl, refl)

abbrev pub AllStaged : ManagedHierarchy → Type 0
AllStaged m = (j : ℕ) → state_at m.states j ≡ staged

module _ {W : Type 0} (sys : Sysfs W) where
  -- The kdamond is staged after a success, and the handle is unchanged but for it.
  abbrev pub Stopped : ℕ → ManagedHierarchy → Result (Unit {0}) × Session W → Type 0
  Stopped i m out = Stops m out.1.0 × (out.0 ≡ ok tt → state_at out.1.0.states i ≡ staged)

  set_Stopped :
      (i : ℕ) (m : ManagedHierarchy) (w : W)
      → Stopped i m (ok tt, (record m { states = set_elem m.states i staged }, w))
  set_Stopped i m w = (Stops-set_elem m i, λ h. state_at-set_elem_staged m.states i)

  same_Stopped : (i : ℕ) (m : ManagedHierarchy) (w : W) (e : Error) → Stopped i m (err e, (m, w))
  same_Stopped i m w e = (Stops-refl m, λ h. cc)

  reading-Stopped :
      {A : Type 0} (i : ℕ) (m : ManagedHierarchy) (r : Result A × W)
      (next : A → Action (Session W) (Unit {0}))
      → ((a : A) (w : W) → Stopped i m (next a (m, w)))
      → Stopped i m (after (keep m r) next)
  reading-Stopped i m r next = reading_rule (Stopped i m) m r next (λ e w. same_Stopped i m w e)

  stopped_after-Stopped :
      (i : ℕ) (m : ManagedHierarchy) (w : W) (k : KdamondState)
      → Stopped i m (stopped_after sys i k (m, w))
  stopped_after-Stopped i m w off = set_Stopped i m w
  stopped_after-Stopped i m w on = same_Stopped i m w _
  stopped_after-Stopped i m w (unknown name) = same_Stopped i m w _

  stop_read-Stopped :
      (i : ℕ) (m : ManagedHierarchy) (w : W) (x : KdamondSessionState) (k : KdamondState)
      → state_at m.states i ≡ x
      → Stopped i m (stop_read sys i x k (m, w))
  unfolding stop_read
  stop_read-Stopped i m w staged off h = (Stops-refl m, λ e. h)
  stop_read-Stopped i m w staged on h = same_Stopped i m w _
  stop_read-Stopped i m w staged (unknown name) h = same_Stopped i m w _
  stop_read-Stopped i m w (running p) off h = set_Stopped i m w
  stop_read-Stopped i m w (running p) on h =
      reading-Stopped i m (retry_busy sys (pid sys i) w) _ λ q w1.
        reading-Stopped i m (some_or sys q (err not_running) w1) _ λ current w2.
          reading-Stopped i m (same_thread sys current p w2) _ λ u w3.
            reading-Stopped i m (retry_busy sys (command sys i KdamondCommand.off) w3) _ λ v w4.
              reading-Stopped i m (retry_busy sys (state sys i) w4) _
                λ k w5. stopped_after-Stopped i m w5 k
  stop_read-Stopped i m w (running p) (unknown name) h = same_Stopped i m w _
  stop_read-Stopped i m w unidentified_running off h = set_Stopped i m w
  stop_read-Stopped i m w unidentified_running on h = same_Stopped i m w _
  stop_read-Stopped i m w unidentified_running (unknown name) h = same_Stopped i m w _

  pub stop_owned-Stopped :
      (i : ℕ) (m : ManagedHierarchy) (w : W) → Stopped i m (stop_owned sys i (m, w))
  unfolding stop_owned stop_one
  stop_owned-Stopped i m w =
      reading-Stopped i m (verify_kdamond_configuration sys m.ownership i w) _ λ u w1.
        reading-Stopped i m (retry_busy sys (state sys i) w1) _
          λ k w2. stop_read-Stopped i m w2 (state_at m.states i) k refl

  -- What a loop leaves: the kdamonds below a bound are staged where there was no error.
  abbrev Swept : ℕ → Option Error → ManagedHierarchy → Option Error × Session W → Type 0
  Swept n first m out =
      Stops m out.1.0
      × (out.0 ≡ none → (first ≡ none) × ((j : ℕ) → j < n → state_at out.1.0.states j ≡ staged))

  counted-Swept :
      (n : ℕ) (first : Option Error) (m : ManagedHierarchy) (r : Result (Unit {0}) × W)
      (next : Session W → Option Error × Session W)
      → ((w : W) → Swept n first m (next (m, w)))
      → Swept n first m (counted sys first next (keep m r))
  counted-Swept n none m (err e, w) next h = (Stops-refl m, λ e. cc)
  counted-Swept n (some f) m (err e, w) next h = (Stops-refl m, λ e. cc)
  counted-Swept n first m (ok u, w) next h = h w

  -- One more kdamond, after the loop over the others.
  recorded-Swept :
      (n : ℕ) (first : Option Error) (m : ManagedHierarchy) (r : Result (Unit {0}) × Session W)
      (next : Option Error → Session W → Option Error × Session W)
      → Stopped n m r
      → ((f : Option Error) (m' : ManagedHierarchy) (w : W) → Swept n f m' (next f (m', w)))
      → Swept (suc n) first m (recorded sys first next r)
  recorded-Swept n first m (r, (m', w)) next h k =
      let rest = k (first_error first r) m' w in
      (
        Stops-trans h.0 rest.0,
        λ e.
            let none_before = rest.1 e in
            let ok_before : (first ≡ none) × (r ≡ ok tt) = first_error-none first r none_before.0 in
            (
              ok_before.0,
              λ j b. elim (ℕ-cases n j) [
                | inl same ↦ rw (← same) (Stops-staged rest.0 n (h.1 ok_before.1))
                | inr other ↦ none_before.1 j (ground arith)
              ],
            ),
      )

  stop_each-Swept :
      (n : ℕ) (first : Option Error) (m : ManagedHierarchy) (w : W)
      → Swept n first m (stop_each sys n first (m, w))
  unfolding stop_each
  stop_each-Swept zero first m w = (Stops-refl m, λ e. (e, λ j h. absurd (omega arith)))
  stop_each-Swept (suc n) first m w =
      counted-Swept (suc n) first m (verify_count sys m.ownership w) _ λ w'.
        recorded-Swept n first m (stop_owned sys n (m, w')) (stop_each sys n)
          (stop_owned-Stopped n m w') (stop_each-Swept n)

  skipped-Swept :
      (n : ℕ) (first : Option Error) (m : ManagedHierarchy) (out : Option Error × Session W)
      → state_at m.states n ≡ staged
      → Swept n first m out
      → Swept (suc n) first m out
  skipped-Swept n first m out h k = (
    k.0,
    λ e. (
      (k.1 e).0,
      λ j b. elim (ℕ-cases n j) [
        | inl same ↦ rw (← same) (Stops-staged k.0 n h)
        | inr other ↦ (k.1 e).1 j (ground arith)
      ],
    ),
  )

  rollback_each-Swept :
      (n : ℕ) (first : Option Error) (m : ManagedHierarchy) (w : W)
      → Swept n first m (rollback_each sys n first (m, w))
  unfolding rollback_each
  rollback_each-Swept zero first m w = (Stops-refl m, λ e. (e, λ j h. absurd (omega arith)))
  rollback_each-Swept (suc n) first m w =
      if_rule (Swept (suc n) first m) (is_staged (state_at m.states n))
        (λ e.
          skipped-Swept n first m (rollback_each sys n first (m, w))
            (is_staged_lem (state_at m.states n) e) (rollback_each-Swept n first m w))
        (λ e.
          recorded-Swept n first m (stop_owned sys n (m, w)) (rollback_each sys n)
            (stop_owned-Stopped n m w) (rollback_each-Swept n))

  -- Where the loop swept the whole list, every kdamond is staged.
  Swept-AllStaged :
      (first : Option Error) (m : ManagedHierarchy) (out : Option Error × Session W)
      → Swept (length m.states) first m out
      → out.0 ≡ none
      → AllStaged out.1.0
  Swept-AllStaged first m out k e j = elim (Bool-cases (ltb j (length m.states))) [
    | inl below ↦ (k.1 e).1 j (ltb→lt j (length m.states) below)
    | inr above ↦ state_at_beyond out.1.0.states j (let same = k.0.length_same in ground arith)
  ]

  -- The outcome of a whole stop: success means that every kdamond is staged.
  abbrev pub StopsAll : ManagedHierarchy → Result (Unit {0}) × Session W → Type 0
  StopsAll m out = Stops m out.1.0 × (out.0 ≡ ok tt → AllStaged out.1.0)

  reading-StopsAll :
      {A : Type 0} (m : ManagedHierarchy) (r : Result A × W)
      (next : A → Action (Session W) (Unit {0}))
      → ((a : A) (w : W) → StopsAll m (next a (m, w)))
      → StopsAll m (after (keep m r) next)
  reading-StopsAll m r next = reading_rule (StopsAll m) m r next (λ e w. (Stops-refl m, λ k. cc))

  stop_end-StopsAll :
      (m : ManagedHierarchy) (out : Option Error × Session W)
      → Swept (length m.states) none m out
      → StopsAll m (stop_end sys out)
  unfolding stop_end
  stop_end-StopsAll m (some e, (m', w)) k = (k.0, λ e. cc)
  stop_end-StopsAll m (none, (m', w)) k =
      verified (verify sys m'.ownership w) (k.0, λ e. Swept-AllStaged none m (none, (m', w)) k refl)
    where
      verified :
          (r : Result (Unit {0}) × W)
          → Stops m m' × (r.0 ≡ ok tt → AllStaged m')
          → StopsAll m (keep m' r)
      verified (r, w') h = h

  rollback_end-StopsAll :
      (m : ManagedHierarchy) (out : Option Error × Session W)
      → Swept (length m.states) none m out
      → StopsAll m (rollback_end sys out)
  rollback_end-StopsAll m (some e, s) k = (k.0, λ e. cc)
  rollback_end-StopsAll m (none, s) k = (k.0, λ e. Swept-AllStaged none m (none, s) k refl)

  pub rollback_started-StopsAll :
      (m : ManagedHierarchy) (w : W) → StopsAll m (rollback_started sys (m, w))
  unfolding rollback_started
  rollback_started-StopsAll m w =
      if_rule (StopsAll m) (all is_staged m.states)
        (λ e. (Stops-refl m, λ h j. all_staged_lem m.states j e))
        (λ e.
          reading-StopsAll m (verify_count sys m.ownership w)
            (λ u s. rollback_end sys (rollback_each sys (length m.states) none s))
            λ u w'.
              rollback_end-StopsAll m (rollback_each sys (length m.states) none (m, w'))
                (rollback_each-Swept (length m.states) none m w'))

  pub stop_all-StopsAll :
      (m : ManagedHierarchy) (w : W) → m.owns_hierarchy ≡ true → StopsAll m (stop_all sys (m, w))
  unfolding stop_all
  stop_all-StopsAll m w owns =
      if_rule (StopsAll m) m.owns_hierarchy
        (λ e.
          reading-StopsAll m (verify_count sys m.ownership w)
            (λ u s. stop_end sys (stop_each sys (length m.states) none s))
            λ u w'.
              stop_end-StopsAll m (stop_each sys (length m.states) none (m, w'))
                (stop_each-Swept (length m.states) none m w'))
        (λ e. cc)
