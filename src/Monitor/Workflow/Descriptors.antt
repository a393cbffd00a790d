-- ===== src/Monitor/Workflow/Descriptors.antt =====
-- The descriptors of the snapshot queries, and the schemes that they point to.
use damon_rs.Common.{
  ℕ, zero, suc, ◌+◌, ◌≡◌, ◌⊎◌, inl, inr, refl, Bool, true, false, some, List, [], ◌∷◌, ◌++◌, All,
  arith, ap, ◌∙◌, ◌<◌, map, length, get_elem?,
}
use damon_rs.Config.Duration.{Duration}
use damon_rs.Model.Filter.{target_filter}
use damon_rs.Model.Scheme.{SchemeConfig}
use damon_rs.Model.Context.{ContextConfig}
use damon_rs.Monitor.Workflow.{
  TargetIdentity, SnapshotScope, target, scheme_scope, ungrouped, snapshot_query_scheme,
  add_schemes, one_context,
}
use damon_rs.Monitor.Workflow.Query.{
  SnapshotDescriptor, kdamond_schemes, target_queries, target_descriptors, queries_of,
  snapshot_query_configuration,
}

-- The query scheme asks for the scope: the only target or all of them need no filter, one of
-- several targets is the only one that its filter lets through.
abbrev pub Asks : List TargetIdentity → Duration → SchemeConfig → SnapshotScope → Type 0
Asks is apply s (target i) =
    ((is ≡ i ∷ []) × (s ≡ snapshot_query_scheme apply))
    ⊎ (s ≡ record (snapshot_query_scheme apply) {
      filters = target_filter i.target_index false false ∷ [];
    })
Asks is apply s scheme_scope = s ≡ snapshot_query_scheme apply
Asks is apply s ungrouped = ⊥

-- The descriptors number the schemes from `first`, and each asks for its scope.
abbrev pub Describe :
    List TargetIdentity → Duration → ℕ → List SchemeConfig → List SnapshotDescriptor → Type 0
Describe is apply first [] [] = Unit
Describe is apply first (s ∷ ss) (d ∷ ds) =
    (d.scheme_index ≡ first) × Asks is apply s d.scope × Describe is apply (suc first) ss ds
Describe is apply first _ _ = ⊥

isolated-Describe :
    (all : List TargetIdentity) (apply : Duration) (first : ℕ) (is : List TargetIdentity)
    → Describe all apply first (target_queries apply is) (target_descriptors first is)
unfolding target_queries target_descriptors
isolated-Describe all apply first [] = tt
isolated-Describe all apply first (i ∷ is) =
    (refl, inr refl, isolated-Describe all apply (suc first) is)

queries_of-Describe :
    (is : List TargetIdentity) (first : ℕ) (apply : Duration) (isolate : Bool)
    → Describe is apply first
        (queries_of is first apply isolate).0
        (queries_of is first apply isolate).1
unfolding queries_of
queries_of-Describe (i ∷ []) first apply isolate = (refl, inl (refl, refl), tt)
queries_of-Describe [] first apply true = isolated-Describe [] apply first []
queries_of-Describe [] first apply false = (refl, refl, tt)
queries_of-Describe (i ∷ j ∷ is) first apply true =
    isolated-Describe (i ∷ j ∷ is) apply first (i ∷ j ∷ is)
queries_of-Describe (i ∷ j ∷ is) first apply false = (refl, refl, tt)

-- A descriptor's scheme, in a list of schemes.
abbrev pub Finds : List TargetIdentity → Duration → List SchemeConfig → SnapshotDescriptor → Type 0
Finds is apply ss d =
    (s : SchemeConfig) × (get_elem? ss d.scheme_index ≡ some s) × Asks is apply s d.scope

get_elem-past :
    (before ss : List SchemeConfig) (k : ℕ)
    → get_elem? (before ++ ss) (length before + k) ≡ get_elem? ss k
get_elem-past [] ss k = let e : 0 + k ≡ k = omega arith in ap (get_elem? ss) e
get_elem-past (b ∷ before) ss k =
    let e : length (b ∷ before) + k ≡ suc (length before + k) = omega arith in
    ap (get_elem? (b ∷ before ++ ss)) e ∙ get_elem-past before ss k

-- `ss` stands in `all` from the index `first`.
abbrev StandsAt : List SchemeConfig → ℕ → List SchemeConfig → Type 0
StandsAt all first ss = (k : ℕ) → get_elem? all (first + k) ≡ get_elem? ss k

Describe-Finds :
    (is : List TargetIdentity) (apply : Duration) (all : List SchemeConfig) (first : ℕ)
    (ss : List SchemeConfig) (ds : List SnapshotDescriptor)
    → StandsAt all first ss
    → Describe is apply first ss ds
    → All (Finds is apply all) ds
Describe-Finds is apply all first [] [] at h = tt
Describe-Finds is apply all first [] (d ∷ ds) at h = absurd h
Describe-Finds is apply all first (s ∷ ss) [] at h = tt
Describe-Finds is apply all first (s ∷ ss) (d ∷ ds) at h =
    let here : d.scheme_index ≡ first + 0 = omega (arith, h.0) in
    (
      (s, ap (get_elem? all) here ∙ at 0, h.1),
      Describe-Finds is apply all (suc first) ss ds
          (λ k.
            let e : suc first + k ≡ first + suc k = omega arith in
            ap (get_elem? all) e ∙ at (suc k))
          h.2,
    )

-- The scopes that the descriptors have, in order.
abbrev pub scopes : List TargetIdentity → Bool → List SnapshotScope
scopes (i ∷ []) isolate = target i ∷ []
scopes is true = map target is
scopes is false = scheme_scope ∷ []

target_descriptors-scopes :
    (first : ℕ) (is : List TargetIdentity)
    → map (λ (d : SnapshotDescriptor). d.scope) (target_descriptors first is) ≡ map target is
unfolding target_descriptors
target_descriptors-scopes first [] = refl
target_descriptors-scopes first (i ∷ is) =
    ap (λ r. target i ∷ r) (target_descriptors-scopes (suc first) is)

queries_of-scopes :
    (is : List TargetIdentity) (first : ℕ) (apply : Duration) (isolate : Bool)
    → map (λ (d : SnapshotDescriptor). d.scope) (queries_of is first apply isolate).1
      ≡ scopes is isolate
unfolding queries_of
queries_of-scopes (i ∷ []) first apply isolate = refl
queries_of-scopes [] first apply true = target_descriptors-scopes first []
queries_of-scopes [] first apply false = refl
queries_of-scopes (i ∷ j ∷ is) first apply true = target_descriptors-scopes first (i ∷ j ∷ is)
queries_of-scopes (i ∷ j ∷ is) first apply false = refl

get_elem-before :
    (before ss : List SchemeConfig) (k : ℕ)
    → k < length before
    → get_elem? (before ++ ss) k ≡ get_elem? before k
get_elem-before [] ss k b = ground arith
get_elem-before (b ∷ before) ss zero h = refl
get_elem-before (b ∷ before) ss (suc k) h = get_elem-before before ss k (omega arith)

-- The configuration of a snapshot keeps the schemes of the workflow at their indices. Each
-- descriptor has the index of a query scheme that asks for its scope, and the scopes are the only
-- target, or, isolated, each target in order with a filter on it, or else one for all targets.
pub snapshot_query-Finds :
    (refresh : Duration) (c : ContextConfig) (is : List TargetIdentity) (apply : Duration)
    (isolate : Bool)
    → let (config, descriptors) =
        snapshot_query_configuration (one_context refresh c) is apply isolate in
      All (Finds is apply (kdamond_schemes config.kdamonds)) descriptors
      × (map (λ (d : SnapshotDescriptor). d.scope) descriptors ≡ scopes is isolate)
      × ((k : ℕ)
          → k < length c.schemes
          → get_elem? (kdamond_schemes config.kdamonds) k ≡ get_elem? c.schemes k)
unfolding snapshot_query_configuration add_schemes
snapshot_query-Finds refresh c is apply isolate =
    let (ss, ds) = queries_of is (length c.schemes) apply isolate in
    (
      Describe-Finds is apply (c.schemes ++ ss) (length c.schemes) ss ds
          (get_elem-past c.schemes ss) (queries_of-Describe is (length c.schemes) apply isolate),
      queries_of-scopes is (length c.schemes) apply isolate,
      λ k b. get_elem-before c.schemes ss k b,
    )
