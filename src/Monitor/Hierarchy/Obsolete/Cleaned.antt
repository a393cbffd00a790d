-- ===== src/Monitor/Hierarchy/Obsolete/Cleaned.antt =====
-- A configuration without its obsolete targets passes the checks that it passed with them.
use damon_rs.Common.{
  ℕ, zero, suc, ◌<◌, ◌≤◌, ◌≡◌, refl, Bool, true, false, Option, none, some, List, [], ◌∷◌, All,
  length, any, map, arith, if_rule, ap, sym, ◌∙◌, subst,
}
use damon_rs.Error.Checks.{Passes, All-map}
use damon_rs.Abi.Operation.{
  Operation, virtual_address, fixed_virtual_address, physical_address, unknown,
}
use damon_rs.Validate.{kernel_index_max}
use damon_rs.Model.Scheme.Valid.{IsValidScheme, IsRunnableScheme}
use damon_rs.Model.Target.{TargetConfig}
use damon_rs.Model.Align.{minimum_region_units}
use damon_rs.Model.Context.{ContextConfig, is_obsolete, retained_count}
use damon_rs.Model.Context.Units.{HasUnits}
use damon_rs.Model.Context.Valid.{IsValidContext, IsAligned, EndsFit}
use damon_rs.Model.Context.Runnable.{IsRunnableContext, HasTargets}
use damon_rs.Model.Damon.{KdamondConfig, DamonConfig, validate_running_update}
use damon_rs.Model.Damon.Valid.{
  IsValidKdamond, Fits, RunsOne, validate_runnable_for_lifecycle-IsRunnableDamon,
}
use damon_rs.Monitor.Hierarchy.Obsolete.{
  retain, clean_context, clean_kdamond, clean_at, clean_each, without_obsolete_targets,
  has_obsolete, has_obsolete_at, contains_obsolete_targets,
}

All-retain : (P : TargetConfig → Type 0) (ts : List TargetConfig) → All P ts → All P (retain ts)
unfolding retain
All-retain P [] h = tt
All-retain P (t ∷ ts) h =
    if_rule (All P) t.obsolete (λ e. All-retain P ts h.1) (λ n. (h.0, All-retain P ts h.1))

length-retain : (ts : List TargetConfig) → length (retain ts) ≡ retained_count ts
unfolding retain
length-retain [] = refl
length-retain (t ∷ ts) = ground (arith, length-retain ts)

retained_count-retain : (ts : List TargetConfig) → retained_count (retain ts) ≡ retained_count ts
unfolding retain
retained_count-retain [] = refl
retained_count-retain (t ∷ ts) = ground (arith, retained_count-retain ts)

retained_count-le : (ts : List TargetConfig) → retained_count ts ≤ length ts
retained_count-le [] = omega arith
retained_count-le (t ∷ ts) = ground (arith, retained_count-le ts)

retain-stays : (ts : List TargetConfig) → All (λ (t : TargetConfig). t.obsolete ≡ false) (retain ts)
unfolding retain
retain-stays [] = tt
retain-stays (t ∷ ts) =
    if_rule (All (λ (t : TargetConfig). t.obsolete ≡ false)) t.obsolete (λ e. retain-stays ts)
      (λ n. (n, retain-stays ts))

retain-HasUnits :
    (page : ℕ) (op : Operation) (c : ContextConfig)
    → HasUnits page op c.address_unit c.targets
    → HasUnits page op c.address_unit (retain c.targets)
retain-HasUnits page physical_address c h = (h.0, All-retain _ c.targets h.1)
retain-HasUnits page (unknown name) c h = tt
retain-HasUnits page virtual_address c h = h
retain-HasUnits page fixed_virtual_address c h = h

retain-IsAligned :
    (m : Option ℕ) (ts : List TargetConfig) → IsAligned m ts → IsAligned m (retain ts)
retain-IsAligned none ts h = tt
retain-IsAligned (some a) ts h = All-retain _ ts h

retain-HasTargets :
    (op : Operation) (ts : List TargetConfig) → HasTargets op ts → HasTargets op (retain ts)
unfolding retain
retain-HasTargets virtual_address ts h = All-retain _ ts h
retain-HasTargets fixed_virtual_address ts h = (All-retain _ ts h.0, All-retain _ ts h.1)
retain-HasTargets physical_address ts h = (h.0, ground (arith, h.1, h.2.stays), h.2)
retain-HasTargets (unknown name) ts h = tt

clean-IsRunnableContext :
    (page : ℕ) (allow : Bool) (c : ContextConfig)
    → IsRunnableContext page true c
    → IsRunnableContext page allow (clean_context c)
unfolding clean_context
clean-IsRunnableContext page allow c r =
    let v = r.valid in
    let count = retained_count-retain c.targets in
    let schemes =
      subst (λ n. All (λ s. IsRunnableScheme s c.operation n) c.schemes) (sym count) r.schemes in
    let valid_schemes =
      subst (λ n. All (λ s. IsValidScheme s n) c.schemes) (sym (length-retain c.targets))
        (All-map (λ s (x : IsRunnableScheme s c.operation (retained_count c.targets)). x.valid)
          c.schemes r.schemes) in
    record {
      valid = record {
        token = v.token;
        target_count =
            omega (arith, v.target_count, length-retain c.targets, retained_count-le c.targets);
        scheme_count = v.scheme_count;
        goal = v.goal;
        attributes = v.attributes;
        control = v.control;
        probe_count = v.probe_count;
        probes = v.probes;
        targets = All-retain _ c.targets v.targets;
        units = retain-HasUnits page c.operation c v.units;
        aligned =
            retain-IsAligned (minimum_region_units page c.operation c.address_unit) c.targets
              v.aligned;
        schemes = valid_schemes;
      };
      stay = λ e. retain-stays c.targets;
      some_stays = omega (arith, count, r.some_stays);
      hits = r.hits;
      samples = r.samples;
      targets = retain-HasTargets c.operation c.targets r.targets;
      schemes = schemes;
    }

clean-RunsOne :
    (page : ℕ) (k : KdamondConfig) → RunsOne page true k → RunsOne page true (clean_kdamond k)
unfolding clean_kdamond
clean-RunsOne page k (c, e, r) =
    (clean_context c, ap (map clean_context) e, clean-IsRunnableContext page true c r)

clean-IsValidKdamond :
    (page : ℕ) (k : KdamondConfig)
    → RunsOne page true k
    → IsValidKdamond page k
    → IsValidKdamond page (clean_kdamond k)
unfolding clean_kdamond
clean-IsValidKdamond page k (c, e, r) v =
    let same = ap (map clean_context) e in
    record {
      count = subst (λ cs. length cs ≤ kernel_index_max) (sym same) (omega arith);
      refresh = v.refresh;
      contexts =
          subst (All (IsValidContext page)) (sym same)
            ((clean-IsRunnableContext page true c r).valid, tt);
    }

fits :
    (cs : List ContextConfig)
    → All (λ (c : ContextConfig). EndsFit c.targets) cs
    → All (λ (c : ContextConfig). EndsFit c.targets) (map clean_context cs)
unfolding clean_context
fits [] h = tt
fits (c ∷ cs) h = (All-retain _ c.targets h.0, fits cs h.1)

clean-Fits : (k : KdamondConfig) → Fits k → Fits (clean_kdamond k)
unfolding clean_kdamond clean_context
clean-Fits k h = fits k.contexts h

-- Regions that fit, valid, with one context that can run.
abbrev pub Updates : ℕ → KdamondConfig → Type 0
Updates page k = Fits k × IsValidKdamond page k × RunsOne page true k

clean-Updates : (page : ℕ) (k : KdamondConfig) → Updates page k → Updates page (clean_kdamond k)
clean-Updates page k h =
    (clean-Fits k h.0, clean-IsValidKdamond page k h.2 h.1, clean-RunsOne page k h.2)

clean_at-Updates :
    (page : ℕ) (i : ℕ) (ks : List KdamondConfig)
    → All (Updates page) ks
    → All (Updates page) (clean_at i ks) × (length (clean_at i ks) ≡ length ks)
unfolding clean_at
clean_at-Updates page i [] h = (tt, refl)
clean_at-Updates page zero (k ∷ ks) h = ((clean-Updates page k h.0, h.1), refl)
clean_at-Updates page (suc i) (k ∷ ks) h =
    let rest = clean_at-Updates page i ks h.1 in ((h.0, rest.0), omega (arith, rest.1))

clean_each-Updates :
    (page : ℕ) (is : List ℕ) (ks : List KdamondConfig)
    → All (Updates page) ks
    → All (Updates page) (clean_each is ks) × (length (clean_each is ks) ≡ length ks)
unfolding clean_each
clean_each-Updates page [] ks h = (h, refl)
clean_each-Updates page (i ∷ is) ks h =
    let one = clean_at-Updates page i ks h in
    let rest = clean_each-Updates page is (clean_at i ks) one.0 in
    (rest.0, omega (arith, rest.1, one.1))

retain-none : (ts : List TargetConfig) → any is_obsolete (retain ts) ≡ false
unfolding retain
retain-none [] = refl
retain-none (t ∷ ts) = ground (arith, retain-none ts)

contexts-none :
    (cs : List ContextConfig)
    → any (λ (c : ContextConfig). any is_obsolete c.targets) (map clean_context cs) ≡ false
unfolding clean_context
contexts-none [] = refl
contexts-none (c ∷ cs) = ground (arith, retain-none c.targets, contexts-none cs)

clean-none : (k : KdamondConfig) → has_obsolete (clean_kdamond k) ≡ false
unfolding has_obsolete clean_kdamond
clean-none k = contexts-none k.contexts

clean_at-there : (ks : List KdamondConfig) (i : ℕ) → has_obsolete_at (clean_at i ks) i ≡ false
unfolding clean_at
clean_at-there [] i = refl
clean_at-there (k ∷ ks) zero = clean-none k
clean_at-there (k ∷ ks) (suc i) = clean_at-there ks i

clean_at-keeps :
    (ks : List KdamondConfig) (i j : ℕ)
    → has_obsolete_at ks j ≡ false
    → has_obsolete_at (clean_at i ks) j ≡ false
unfolding clean_at
clean_at-keeps [] i j h = refl
clean_at-keeps (k ∷ ks) zero zero h = clean-none k
clean_at-keeps (k ∷ ks) zero (suc j) h = h
clean_at-keeps (k ∷ ks) (suc i) zero h = h
clean_at-keeps (k ∷ ks) (suc i) (suc j) h = clean_at-keeps ks i j h

clean_each-keeps :
    (is : List ℕ) (ks : List KdamondConfig) (j : ℕ)
    → has_obsolete_at ks j ≡ false
    → has_obsolete_at (clean_each is ks) j ≡ false
unfolding clean_each
clean_each-keeps [] ks j h = h
clean_each-keeps (i ∷ is) ks j h = clean_each-keeps is (clean_at i ks) j (clean_at-keeps ks i j h)

clean_each-none :
    (is : List ℕ) (ks : List KdamondConfig) → any (has_obsolete_at (clean_each is ks)) is ≡ false
unfolding clean_each
clean_each-none [] ks = refl
clean_each-none (i ∷ is) ks =
    let here = clean_each-keeps is (clean_at i ks) i (clean_at-there ks i) in
    ground (arith, here, clean_each-none is (clean_at i ks))

no_element : (ks : List KdamondConfig) → length ks ≡ 0 → ks ≡ []
no_element [] h = refl
no_element (k ∷ ks) h = absurd (ground arith)

collect :
    (page : ℕ) (ks : List KdamondConfig)
    → All Fits ks
    → All (IsValidKdamond page) ks
    → All (RunsOne page true) ks
    → All (Updates page) ks
collect page [] f v r = tt
collect page (k ∷ ks) f v r = ((f.0, v.0, r.0), collect page ks f.1 v.1 r.1)

-- For a positive page size and regions whose ends fit u64: a configuration that passes the check
-- of a running update passes it too once the obsolete targets of any selected kdamonds are
-- removed, and the selected kdamonds then have no obsolete target.
pub without_obsolete_targets-Runs :
    (page : ℕ) (config : DamonConfig) (selected : List ℕ)
    → 0 < page
    → All Fits config.kdamonds
    → Passes (validate_running_update page config)
    → Passes (validate_running_update page (without_obsolete_targets config selected))
      × (contains_obsolete_targets (without_obsolete_targets config selected) selected ≡ false)
unfolding without_obsolete_targets contains_obsolete_targets validate_running_update
without_obsolete_targets-Runs page config selected pos f h =
    let iff = validate_runnable_for_lifecycle-IsRunnableDamon page true in
    let r = (iff config pos f).0 h in
    let (all, count) =
      clean_each-Updates page selected config.kdamonds
        (collect page config.kdamonds f r.valid.kdamonds r.kdamonds) in
    let cleaned = without_obsolete_targets config selected in
    let ks = clean_each selected config.kdamonds in
    (
      (iff cleaned pos (All-map (λ k (u : Updates page k). u.0) ks all)).1 (record {
        valid = record {
          count = omega (arith, count, r.valid.count);
          kdamonds = All-map (λ k (u : Updates page k). u.1) ks all;
        };
        some_kdamond = λ e.
            let none_left : length config.kdamonds ≡ 0 = sym count ∙ ap length e in
            r.some_kdamond (no_element config.kdamonds none_left);
        kdamonds = All-map (λ k (u : Updates page k). u.2) ks all;
      }),
      clean_each-none selected config.kdamonds,
    )
