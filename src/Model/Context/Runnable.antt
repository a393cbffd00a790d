-- ===== src/Model/Context/Runnable.antt =====
-- What the stricter validation of a context accepts, before a kernel runs it.
use damon_rs.Common.{
  ℕ, ◌<◌, ◌≡◌, ◌≢◌, ◌⊎◌, ◌↔◌, refl, Bool, true, false, not, none, List, [], ◌∷◌, All, any, arith,
}
use damon_rs.Error.Checks.{Passes, each_iff}
use damon_rs.Abi.Operation.{
  Operation, virtual_address, fixed_virtual_address, physical_address, unknown,
}
use damon_rs.Model.Sample.{SampleControlConfig}
use damon_rs.Model.Scheme.{is_virtual}
use damon_rs.Model.Scheme.Valid.{
  IsRunnableScheme, validate_runnable_for-IsRunnableScheme as scheme_iff,
}
use damon_rs.Model.Target.{TargetConfig}
use damon_rs.Model.Context.{
  ContextConfig, retained_count, lacks_pid, lacks_regions, is_obsolete, validate_physical_targets,
  validate_targets, validate_runnable_sample_control, validate_runnable_for_lifecycle,
  validate_runnable, validate_running_update,
}
use damon_rs.Model.Context.Probes.{FitsHits, validate_weighted_probes-FitsHits}
use damon_rs.Model.Context.Valid.{IsValidContext, EndsFit, validate-IsValidContext}

-- One primitive samples, page faults only on physical memory, and only they take filters.
pub record CanSample (op : Operation) (c : SampleControlConfig) : Type 0 where
  pub one_primitive : c.primitives.page_table ≡ not c.primitives.page_fault
  pub physical : c.primitives.page_fault ≡ true → is_virtual op ≡ false
  pub filters : (c.filters ≡ []) ⊎ (c.primitives.page_fault ≡ true)

-- The target stays, unless it has a process.
abbrev pub HasProcess : TargetConfig → Type 0
HasProcess t = t.obsolete ≡ false → t.pid ≢ none

abbrev pub HasRegions : TargetConfig → Type 0
HasRegions t = t.obsolete ≡ false → t.initial_regions ≢ []

-- Physical memory is the one target of its context.
pub record IsWholeMemory (t : TargetConfig) : Type 0 where
  pub stays : t.obsolete ≡ false
  pub no_process : t.pid ≡ none
  pub regions : t.initial_regions ≢ []

abbrev pub HasTargets : Operation → List TargetConfig → Type 0
HasTargets virtual_address ts = All HasProcess ts
HasTargets fixed_virtual_address ts = All HasProcess ts × All HasRegions ts
HasTargets physical_address ts = (t : TargetConfig) × (ts ≡ t ∷ []) × IsWholeMemory t
HasTargets (unknown name) ts = Unit

pub record IsRunnableContext (page : ℕ) (allow_obsolete : Bool) (c : ContextConfig) : Type 0 where
  pub valid : IsValidContext page c
  pub stay : allow_obsolete ≡ false → All (λ (t : TargetConfig). t.obsolete ≡ false) c.targets
  pub some_stays : 0 < retained_count c.targets
  pub hits : FitsHits c.intervals c.probes
  pub samples : CanSample c.operation c.sample_control
  pub targets : HasTargets c.operation c.targets
  pub schemes : All (λ s. IsRunnableScheme s c.operation (retained_count c.targets)) c.schemes

pub sample_iff :
    (op : Operation) (c : SampleControlConfig)
    → Passes (validate_runnable_sample_control op c) ↔ CanSample op c
unfolding validate_runnable_sample_control
sample_iff op c = (
  λ h. record {
    one_primitive = ground arith;
    physical = λ p. ground arith;
    filters = ground arith;
  },
  λ v. ground (arith, v.one_primitive, v.physical, v.filters),
)

process_iff : (ts : List TargetConfig) → (any lacks_pid ts ≡ false) ↔ All HasProcess ts
process_iff [] = (λ h. tt, λ h. refl)
process_iff (t ∷ ts) =
    let rest = process_iff ts in
    (λ h. (λ stays. ground arith, rest.0 (ground arith)), λ h. ground (arith, h.0, rest.1 h.1))

regions_iff : (ts : List TargetConfig) → (any lacks_regions ts ≡ false) ↔ All HasRegions ts
regions_iff [] = (λ h. tt, λ h. refl)
regions_iff (t ∷ ts) =
    let rest = regions_iff ts in
    (λ h. (λ stays. ground arith, rest.0 (ground arith)), λ h. ground (arith, h.0, rest.1 h.1))

obsolete_iff :
    (ts : List TargetConfig)
    → (any is_obsolete ts ≡ false) ↔ All (λ (t : TargetConfig). t.obsolete ≡ false) ts
obsolete_iff [] = (λ h. tt, λ h. refl)
obsolete_iff (t ∷ ts) =
    let rest = obsolete_iff ts in
    (λ h. (ground arith, rest.0 (ground arith)), λ h. ground (arith, h.0, rest.1 h.1))

physical_iff :
    (ts : List TargetConfig)
    → Passes (validate_physical_targets ts) ↔ HasTargets physical_address ts
unfolding validate_physical_targets
physical_iff [] = (λ h. ground arith, λ v. ground (arith, v.1))
physical_iff (t ∷ []) = (
  λ h.
      (t, refl, record { stays = ground arith; no_process = ground arith; regions = ground arith }),
  λ v.
      let stays = v.2.stays in
      let no_process = v.2.no_process in
      let regions = v.2.regions in ground (arith, v.1, stays, no_process, regions),
)
physical_iff (t ∷ u ∷ ts) = (λ h. ground arith, λ v. ground (arith, v.1))

targets_iff :
    (op : Operation) (ts : List TargetConfig) → Passes (validate_targets op ts) ↔ HasTargets op ts
unfolding validate_targets
targets_iff virtual_address ts =
    let process = process_iff ts in
    (λ h. process.0 (ground arith), λ v. ground (arith, process.1 v))
targets_iff fixed_virtual_address ts =
    let process = process_iff ts in
    let regions = regions_iff ts in
    (
      λ h. (process.0 (ground arith), regions.0 (ground arith)),
      λ v. ground (arith, process.1 v.0, regions.1 v.1),
    )
targets_iff physical_address ts = physical_iff ts
targets_iff (unknown name) ts = (λ h. tt, λ h. refl)

-- For a positive page size and regions whose ends fit u64, the check before a run accepts exactly
-- the valid contexts that can run: some target stays, none is obsolete unless that is allowed,
-- the weighted hits fit, one primitive samples, the targets suit the operation, and so do the
-- schemes for the number of targets that stay.
pub validate_runnable_for_lifecycle-IsRunnableContext :
    (page : ℕ) (allow : Bool) (c : ContextConfig)
    → 0 < page
    → EndsFit c.targets
    → Passes (validate_runnable_for_lifecycle page allow c) ↔ IsRunnableContext page allow c
unfolding validate_runnable_for_lifecycle
validate_runnable_for_lifecycle-IsRunnableContext page allow c pos ends =
    let valid = validate-IsValidContext page c pos ends in
    let stay = obsolete_iff c.targets in
    let hits = validate_weighted_probes-FitsHits c.intervals c.probes in
    let samples = sample_iff c.operation c.sample_control in
    let targets = targets_iff c.operation c.targets in
    let schemes = each_iff (λ s. scheme_iff s c.operation (retained_count c.targets)) c.schemes in
    (
      λ h. record {
        valid = valid.0 (ground arith);
        stay = λ e. stay.0 (ground arith);
        some_stays = ground arith;
        hits = hits.0 (ground arith);
        samples = samples.0 (ground arith);
        targets = targets.0 (ground arith);
        schemes = schemes.0 (ground arith);
      },
      λ v. ground (
        arith,
        valid.1 v.valid,
        λ (e : allow ≡ false). stay.1 (v.stay e),
        v.some_stays,
        hits.1 v.hits,
        samples.1 v.samples,
        targets.1 v.targets,
        schemes.1 v.schemes,
      ),
    )

-- A context that may start may also be staged into a running kdamond.
pub validate_runnable-running_update :
    (page : ℕ) (c : ContextConfig)
    → Passes (validate_runnable page c)
    → Passes (validate_running_update page c)
unfolding validate_runnable validate_running_update validate_runnable_for_lifecycle
validate_runnable-running_update page c h = ground arith
