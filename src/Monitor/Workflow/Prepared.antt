-- ===== src/Monitor/Workflow/Prepared.antt =====
-- The configuration with the snapshot queries can run where the configuration of the workflow can.
use damon_rs.Common.{
  ℕ, ◌+◌, ◌≤◌, ◌<◌, ◌≡◌, subst, sym, refl, false, List, [], ◌∷◌, ◌++◌, All, All-append, arith,
  length, length-append,
}
use damon_rs.Error.Checks.{Passes, All-map}
use damon_rs.Validate.{kernel_index_max}
use damon_rs.Config.Duration.{Duration}
use damon_rs.Model.Scheme.{SchemeConfig}
use damon_rs.Model.Scheme.Valid.{IsRunnableScheme}
use damon_rs.Model.Target.{TargetConfig}
use damon_rs.Model.Context.{ContextConfig, retained_count}
use damon_rs.Model.Context.Valid.{IsValidContext, EndsFit}
use damon_rs.Model.Context.Runnable.{IsRunnableContext}
use damon_rs.Model.Damon.{validate_runnable}
use damon_rs.Model.Damon.Valid.{IsRunnableDamon, validate_runnable_for_lifecycle-IsRunnableDamon}
use damon_rs.Monitor.Workflow.{add_schemes, one_context}

all_retained :
    (ts : List TargetConfig)
    → All (λ (t : TargetConfig). t.obsolete ≡ false) ts
    → retained_count ts ≡ length ts
all_retained [] h = refl
all_retained (t ∷ ts) h = rw (h.0) (omega (arith, all_retained ts h.1))

-- The context with more schemes at the end.
abbrev pub with_schemes : ContextConfig → List SchemeConfig → ContextConfig
with_schemes c more = record c { schemes = c.schemes ++ more }

-- Schemes that can run on the targets of the context, as many as there is room for.
pub record CanJoin (c : ContextConfig) (more : List SchemeConfig) : Type 0 where
  pub room : length c.schemes + length more ≤ kernel_index_max
  pub runnable : All (λ s. IsRunnableScheme s c.operation (length c.targets)) more

with_schemes-IsValidContext :
    (page : ℕ) (c : ContextConfig) (more : List SchemeConfig)
    → IsValidContext page c
    → CanJoin c more
    → IsValidContext page (with_schemes c more)
with_schemes-IsValidContext page c more v j = record {
  token = v.token;
  target_count = v.target_count;
  scheme_count = subst (λ n. n ≤ kernel_index_max) (sym (length-append c.schemes more)) j.room;
  goal = v.goal;
  attributes = v.attributes;
  control = v.control;
  probe_count = v.probe_count;
  probes = v.probes;
  targets = v.targets;
  units = v.units;
  aligned = v.aligned;
  schemes = All-append _ c.schemes more v.schemes (
      All-map (λ s (r : IsRunnableScheme s c.operation (length c.targets)). r.valid) more
        j.runnable);
}

with_schemes-IsRunnableContext :
    (page : ℕ) (c : ContextConfig) (more : List SchemeConfig)
    → IsRunnableContext page false c
    → CanJoin c more
    → IsRunnableContext page false (with_schemes c more)
with_schemes-IsRunnableContext page c more r j = record {
  valid = with_schemes-IsValidContext page c more r.valid j;
  stay = r.stay;
  some_stays = r.some_stays;
  hits = r.hits;
  samples = r.samples;
  targets = r.targets;
  schemes = All-append _ c.schemes more r.schemes (
      subst (λ n. All (λ s. IsRunnableScheme s c.operation n) more)
        (sym (all_retained c.targets (r.stay refl))) j.runnable);
}

with_schemes-IsRunnableDamon :
    (page : ℕ) (refresh : Duration) (c : ContextConfig) (more : List SchemeConfig)
    → IsRunnableDamon page false (one_context refresh c)
    → CanJoin c more
    → IsRunnableDamon page false (one_context refresh (with_schemes c more))
with_schemes-IsRunnableDamon page refresh c more r j =
    let k = r.valid.kdamonds.0 in
    let (c', e, run) = r.kdamonds.0 in
    let same : c' ≡ c = ground (arith, e) in
    let runnable = subst (IsRunnableContext page false) same run in
    record {
      valid = record {
        count = omega arith;
        kdamonds = (
          record {
            count = k.count;
            refresh = k.refresh;
            contexts = (with_schemes-IsValidContext page c more k.contexts.0 j, tt);
          },
          tt,
        );
      };
      some_kdamond = λ n. cc;
      kdamonds =
          ((with_schemes c more, refl, with_schemes-IsRunnableContext page c more runnable j), tt);
    }

-- Where the configuration of one context passes the check before a run, so does the one with
-- more schemes that can join it.
pub with_schemes-Runs :
    (page : ℕ) (refresh : Duration) (c : ContextConfig) (more : List SchemeConfig)
    → 0 < page
    → EndsFit c.targets
    → Passes (validate_runnable page (one_context refresh c))
    → CanJoin c more
    → Passes (validate_runnable page (add_schemes more (one_context refresh c)))
unfolding add_schemes validate_runnable
with_schemes-Runs page refresh c more pos fits h j =
    let iff = validate_runnable_for_lifecycle-IsRunnableDamon page false in
    let r = (iff (one_context refresh c) pos ((fits, tt), tt)).0 h in
    (iff (one_context refresh (with_schemes c more)) pos ((fits, tt), tt)).1
      (with_schemes-IsRunnableDamon page refresh c more r j)
