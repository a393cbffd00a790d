-- ===== src/Monitor/Workflow/Query.antt =====
-- src/monitor/workflow.rs: the snapshot queries that are added to a configuration, their
-- descriptors, and how long a snapshot may take.
use damon_rs.Common.{
  ℕ, suc, Bool, true, false, List, [], ◌∷◌, ◌++◌, map, max, length, ◌==◌, if◌then◌else◌,
}
use damon_rs.Config.Duration.{Duration, zero_duration}
use damon_rs.Config.MonitoringIntervals
use damon_rs.Config.MonitoringIntervals.{MonitoringIntervals}
use damon_rs.Model.Filter.{target_filter}
use damon_rs.Model.Scheme.{SchemeConfig}
use damon_rs.Model.Context.{ContextConfig}
use damon_rs.Model.Damon.{KdamondConfig, DamonConfig}
use damon_rs.Monitor.Workflow.{
  TargetIdentity, SnapshotScope, target, scheme_scope, snapshot_query_scheme, add_schemes,
}

pub record SnapshotDescriptor : Type 0 where
  pub scheme_index : ℕ
  pub scope : SnapshotScope

-- The loop that isolates the targets, from the next scheme's index.
unfoldable pub target_queries : Duration → List TargetIdentity → List SchemeConfig
unfolding snapshot_query_scheme
target_queries apply [] = []
target_queries apply (i ∷ is) =
    record (snapshot_query_scheme apply) { filters = target_filter i.target_index false false ∷ [] }
    ∷ target_queries apply is

unfoldable pub target_descriptors : ℕ → List TargetIdentity → List SnapshotDescriptor
target_descriptors next [] = []
target_descriptors next (i ∷ is) =
    record { scheme_index = next; scope = target i } ∷ target_descriptors (suc next) is

-- The number of the schemes of the first context.
abbrev pub context_schemes : List ContextConfig → List SchemeConfig
context_schemes [] = []
context_schemes (c ∷ cs) = c.schemes

abbrev pub kdamond_schemes : List KdamondConfig → List SchemeConfig
kdamond_schemes [] = []
kdamond_schemes (k ∷ ks) = context_schemes k.contexts

unfoldable pub queries_of :
    List TargetIdentity → ℕ → Duration → Bool → List SchemeConfig × List SnapshotDescriptor
unfolding target_queries target_descriptors
queries_of (i ∷ []) first apply isolate =
    (snapshot_query_scheme apply ∷ [], record { scheme_index = first; scope = target i } ∷ [])
queries_of identities first apply true =
    (target_queries apply identities, target_descriptors first identities)
queries_of identities first apply false =
    (snapshot_query_scheme apply ∷ [], record { scheme_index = first; scope = scheme_scope } ∷ [])

unfoldable pub snapshot_query_configuration :
    DamonConfig → List TargetIdentity → Duration → Bool → DamonConfig × List SnapshotDescriptor
unfolding queries_of add_schemes
snapshot_query_configuration base identities apply isolate =
    let queries = queries_of identities (length (kdamond_schemes base.kdamonds)) apply isolate in
    (add_schemes queries.0 base, queries.1)

-- What a scheme's apply interval amounts to.
abbrev pub effective_interval : ContextConfig → SchemeConfig → Duration
effective_interval c s =
    if s.apply_interval == 0 then MonitoringIntervals.aggregation c.intervals else s.apply_interval

-- The iterator of the effective intervals, over the schemes of all contexts.
abbrev pub intervals_of_contexts : List ContextConfig → List Duration
intervals_of_contexts [] = []
intervals_of_contexts (c ∷ cs) = map (effective_interval c) c.schemes ++ intervals_of_contexts cs

abbrev pub intervals_of : List KdamondConfig → List Duration
intervals_of [] = []
intervals_of (k ∷ ks) = intervals_of_contexts k.contexts ++ intervals_of ks

-- `max().unwrap_or(ZERO)`
abbrev pub longest : List Duration → Duration
longest [] = zero_duration
longest (d ∷ ds) = max d (longest ds)

unfoldable pub maximum_effective_apply_interval : DamonConfig → Duration
maximum_effective_apply_interval config = longest (intervals_of config.kdamonds)

pub data SnapshotQuery : Type 0 where
  unsupported : SnapshotQuery
  permanent : List SnapshotDescriptor → SnapshotQuery
  on_demand : DamonConfig → DamonConfig → List SnapshotDescriptor → Bool → SnapshotQuery
