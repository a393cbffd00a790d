-- ===== src/Monitor/Workflow/Snapshots.antt =====
-- Prepared workflows, and the configurations with their snapshot queries.
use damon_rs.Common.{
  ℕ, suc, ◌+◌, ◌≤◌, ◌<◌, ◌≡◌, ◌⊎◌, inl, inr, subst, refl, Bool, true, false, List, [], ◌∷◌, arith,
  length, length-append, u64_max,
}
use damon_rs.Error.{ok}
use damon_rs.Error.Checks.{Passes, >>=-ok, >>-ok, ok_value}
use damon_rs.Validate.{kernel_index_max}
use damon_rs.Validate.Exact.{IsWhole}
use damon_rs.Config.AddressUnit.{AddressUnit}
use damon_rs.Config.Duration.{Duration, zero_duration}
use damon_rs.Config.MonitoringIntervals
use damon_rs.Config.MonitoringIntervals.{MonitoringIntervals, new-IsValidIntervals}
use damon_rs.Config.RegionBounds
use damon_rs.Config.RegionBounds.{RegionBounds}
use damon_rs.Abi.Operation.{Operation}
use damon_rs.Model.Region.{InitialRegionConfig}
use damon_rs.Model.Scheme.{SchemeConfig}
use damon_rs.Model.Context.{ContextConfig}
use damon_rs.Model.Context.Valid.{EndsFit}
use damon_rs.Model.Damon.{validate_runnable}
use damon_rs.Model.Damon.Valid.{validate_runnable_for_lifecycle-IsRunnableDamon}
use damon_rs.Monitor.Workflow.{
  WorkflowOptions, ProcessTarget, TargetIdentity, PreparedWorkflow, process_targets_of,
  identities_from, workflow_targets, workflow_identities, snapshot_query_scheme, add_schemes,
  workflow_context, one_context, prepare_workflow,
}
use damon_rs.Monitor.Workflow.Query.{target_queries, queries_of, snapshot_query_configuration}
use damon_rs.Monitor.Workflow.Queries.{IdentifyBelow, plain-IsRunnable, target_queries-IsRunnable}
use damon_rs.Monitor.Workflow.Prepared.{CanJoin, with_schemes, with_schemes-Runs}

length-target_queries :
    (apply : Duration) (is : List TargetIdentity) → length (target_queries apply is) ≡ length is
unfolding target_queries
length-target_queries apply [] = refl
length-target_queries apply (i ∷ is) = omega (arith, length-target_queries apply is)

-- One more scheme fits, and one for each target where the queries isolate the targets.
abbrev pub HasRoom : ContextConfig → List TargetIdentity → Bool → Type 0
HasRoom c is isolate =
    (length c.schemes + 1 ≤ kernel_index_max)
    × (isolate ≡ true → length c.schemes + length is ≤ kernel_index_max)

module _ (c : ContextConfig) (apply : Duration) (whole : IsWhole 1000 u64_max apply) where
  plain-CanJoin :
      length c.schemes + 1 ≤ kernel_index_max → CanJoin c (snapshot_query_scheme apply ∷ [])
  plain-CanJoin room = record {
    room = omega arith;
    runnable = (plain-IsRunnable apply c.operation (length c.targets) whole, tt);
  }

  queries_of-CanJoin :
      (is : List TargetIdentity) (first : ℕ) (isolate : Bool)
      → length c.targets ≤ kernel_index_max
      → IdentifyBelow (length c.targets) is
      → HasRoom c is isolate
      → CanJoin c (queries_of is first apply isolate).0
  unfolding queries_of target_queries
  queries_of-CanJoin (i ∷ []) first isolate m below room = plain-CanJoin room.0
  queries_of-CanJoin [] first true m below room = record { room = room.1 refl; runnable = tt }
  queries_of-CanJoin [] first false m below room = plain-CanJoin room.0
  queries_of-CanJoin (i ∷ j ∷ is) first false m below room = plain-CanJoin room.0
  queries_of-CanJoin (i ∷ j ∷ is) first true m below room = record {
    room = omega (arith, length-target_queries apply is, room.1 refl);
    runnable =
        target_queries-IsRunnable apply c.operation (length c.targets) (i ∷ j ∷ is) whole m below;
  }

-- The configuration of a snapshot passes the check before a run where the workflow's own does.
pub snapshot_query-Runs :
    (page : ℕ) (refresh : Duration) (c : ContextConfig) (is : List TargetIdentity)
    → (apply : Duration) (isolate : Bool) → 0 < page
    → EndsFit c.targets
    → IsWhole 1000 u64_max apply
    → IdentifyBelow (length c.targets) is
    → HasRoom c is isolate
    → Passes (validate_runnable page (one_context refresh c))
    → Passes (
        validate_runnable page
          (snapshot_query_configuration (one_context refresh c) is apply isolate).0)
unfolding snapshot_query_configuration validate_runnable
snapshot_query-Runs page refresh c is apply isolate pos fits whole below room h =
    let iff =
      validate_runnable_for_lifecycle-IsRunnableDamon page false (one_context refresh c) pos
        ((fits, tt), tt) in
    let count = (iff.0 h).valid.kdamonds.0.contexts.0.target_count in
    with_schemes-Runs page refresh c (queries_of is (length c.schemes) apply isolate).0 pos fits h
      (queries_of-CanJoin c apply whole is (length c.schemes) isolate count below room)

-- What a workflow that is prepared has passed.
pub record IsPrepared (page : ℕ) (options : WorkflowOptions) (op : Operation)
    (targets : List ProcessTarget) (unit : AddressUnit) (p : PreparedWorkflow) : Type 0 where
  pub chosen : MonitoringIntervals
  pub bounds : RegionBounds
  pub intervals_are :
      MonitoringIntervals.new options.sample options.aggregation options.update ≡ ok chosen
  pub bounds_are : RegionBounds.new options.min_regions options.max_regions ≡ ok bounds
  pub base :
      p.base_config
      ≡ one_context options.refresh (workflow_context options op targets unit chosen bounds)
  pub base_runs : Passes (validate_runnable page p.base_config)
  pub capability :
      p.capability_config ≡ add_schemes (snapshot_query_scheme zero_duration ∷ []) p.base_config
  pub capability_runs : Passes (validate_runnable page p.capability_config)
  pub identities : p.target_identities ≡ workflow_identities targets
  pub sample : p.sample_interval ≡ MonitoringIntervals.sample chosen
  pub counts : p.custom_scheme_count ≡ length options.schemes

pub prepare_workflow-IsPrepared :
    (page : ℕ) (options : WorkflowOptions) (op : Operation) (targets : List ProcessTarget)
    (unit : AddressUnit) (p : PreparedWorkflow)
    → prepare_workflow page options op targets unit ≡ ok p
    → IsPrepared page options op targets unit p
unfolding prepare_workflow
prepare_workflow-IsPrepared page options op targets unit p h =
    let (i, ei, h1) =
      >>=-ok (MonitoringIntervals.new options.sample options.aggregation options.update) _ h in
    let (b, eb, h2) = >>=-ok (RegionBounds.new options.min_regions options.max_regions) _ h1 in
    let base = one_context options.refresh (workflow_context options op targets unit i b) in
    let (runs, h3) = >>-ok (validate_runnable page base) _ h2 in
    let (probes, h4) =
      >>-ok (validate_runnable page (add_schemes (snapshot_query_scheme zero_duration ∷ []) base)) _
        h3 in
    subst (IsPrepared page options op targets unit) (ok_value h4) (record {
      chosen = i;
      bounds = b;
      intervals_are = ei;
      bounds_are = eb;
      base = refl;
      base_runs = runs;
      capability = refl;
      capability_runs = probes;
      identities = refl;
      sample = refl;
      counts = refl;
    })

identities_from-IdentifyBelow :
    (common : List InitialRegionConfig) (i n : ℕ) (ts : List ProcessTarget)
    → i + length (process_targets_of common ts) ≤ n
    → IdentifyBelow n (identities_from i ts)
unfolding identities_from process_targets_of
identities_from-IdentifyBelow common i n [] b = tt
identities_from-IdentifyBelow common i n (t ∷ ts) b =
    (omega arith, identities_from-IdentifyBelow common (suc i) n ts (omega arith))

workflow_identities-IdentifyBelow :
    (options : WorkflowOptions) (ts : List ProcessTarget)
    → IdentifyBelow (length (workflow_targets options ts)) (workflow_identities ts)
unfolding workflow_identities workflow_targets
workflow_identities-IdentifyBelow options [] = (omega arith, tt)
workflow_identities-IdentifyBelow options (t ∷ ts) =
    identities_from-IdentifyBelow options.initial_regions 0
      (length (process_targets_of options.initial_regions (t ∷ ts))) (t ∷ ts) (omega arith)

-- The apply interval of the queries: the sampling interval of the workflow, or none.
abbrev pub IsQueryInterval : PreparedWorkflow → Duration → Type 0
IsQueryInterval p apply = (apply ≡ p.sample_interval) ⊎ (apply ≡ zero_duration)

interval-IsWhole :
    (options : WorkflowOptions) (i : MonitoringIntervals) (p : PreparedWorkflow) (apply : Duration)
    → MonitoringIntervals.new options.sample options.aggregation options.update ≡ ok i
    → p.sample_interval ≡ MonitoringIntervals.sample i
    → IsQueryInterval p apply
    → IsWhole 1000 u64_max apply
interval-IsWhole options i p apply e same (inl a) =
    let valid =
      ((new-IsValidIntervals options.sample options.aggregation options.update i).0 e).0 in
    (i.sample_us, ground (arith, a, same), valid.sample_fits)
interval-IsWhole options i p apply e same (inr a) = (0, ground (arith, a), omega arith)

-- The probing configuration has one more scheme, and passes.
probed_room :
    (page : ℕ) (refresh : Duration) (c : ContextConfig) (s : SchemeConfig)
    → 0 < page
    → EndsFit c.targets
    → Passes (validate_runnable page (add_schemes (s ∷ []) (one_context refresh c)))
    → length c.schemes + 1 ≤ kernel_index_max
unfolding add_schemes validate_runnable
probed_room page refresh c s pos fits h =
    let iff =
      validate_runnable_for_lifecycle-IsRunnableDamon page false
        (one_context refresh (with_schemes c (s ∷ []))) pos ((fits, tt), tt) in
    omega
      (arith, (iff.0 h).valid.kdamonds.0.contexts.0.scheme_count, length-append c.schemes (s ∷ []))

-- For a positive page size and initial regions whose ends fit u64: where a workflow is prepared,
-- its configuration with the snapshot queries, whose apply interval is the sampling interval or
-- none, passes the check before a run too, where for isolated targets i32::MAX leaves room for a
-- scheme per target.
pub prepare_workflow-Runs :
    (page : ℕ) (options : WorkflowOptions) (op : Operation) (targets : List ProcessTarget)
    (unit : AddressUnit) (p : PreparedWorkflow) (apply : Duration) (isolate : Bool)
    → 0 < page
    → EndsFit (workflow_targets options targets)
    → prepare_workflow page options op targets unit ≡ ok p
    → IsQueryInterval p apply
    → (isolate ≡ true → p.custom_scheme_count + length p.target_identities ≤ kernel_index_max)
    → Passes (
        validate_runnable page
          (snapshot_query_configuration p.base_config p.target_identities apply isolate).0)
unfolding workflow_context
prepare_workflow-Runs page options op targets unit p apply isolate pos fits h interval room =
    let r = prepare_workflow-IsPrepared page options op targets unit p h in
    let whole = interval-IsWhole options r.chosen p apply r.intervals_are r.sample interval in
    let c = workflow_context options op targets unit r.chosen r.bounds in
    let one_more =
      probed_room page options.refresh c (snapshot_query_scheme zero_duration) pos fits
        (rw (r.capability, r.base) at r.capability_runs) in
    rw (r.base, r.identities)
      (snapshot_query-Runs page options.refresh c (workflow_identities targets) apply isolate pos
        fits whole (workflow_identities-IdentifyBelow options targets)
        (one_more, λ e. rw (r.counts, r.identities) at (room e)) (rw (r.base) at r.base_runs))
