-- ===== src/Sysfs/Capabilities/Names.antt =====
-- The names of the features in the `damo` tool.
use damon_rs.Common.{
  ℕ, zero, suc, ◌≡◌, refl, true, false, Bool, ◌&&◌, not, Option, none, some, String, List, [], ◌∷◌,
  arith, get_elem?, str_eq, eq_iff, ap, sym, ◌∙◌, inl, inr, Bool-cases, ◌==◌, ◌↔◌,
}
use damon_rs.Sysfs.Capabilities.Feature.{SysfsFeature, ordinal, feature_eq, damo_name}
use damon_rs.Sysfs.Capabilities.{
  FeatureCapability, Capabilities, find_feature, find_named, has_name, damo_feature_support,
}

-- The names in the order of the features.
abbrev names : List (Option String)
names =
    some "sysfs/vaddr"
    ∷ some "sysfs/paddr"
    ∷ some "sysfs/fvaddr"
    ∷ some "sysfs/schemes"
    ∷ some "sysfs/schemes_time_quota"
    ∷ some "sysfs/schemes_size_quota"
    ∷ some "sysfs/schemes_prioritization"
    ∷ some "sysfs/schemes_wmarks"
    ∷ some "sysfs/schemes_stat_succ"
    ∷ some "sysfs/schemes_stat_qt_exceed"
    ∷ some "sysfs/avail_ops"
    ∷ some "sysfs/online_params_commit"
    ∷ some "sysfs/refresh_ms"
    ∷ some "sysfs/addr_unit"
    ∷ some "sysfs/ctx_pause"
    ∷ none
    ∷ none
    ∷ none
    ∷ none
    ∷ none
    ∷ none
    ∷ some "sysfs/schemes_apply_interval"
    ∷ some "sysfs/obsolete_target"
    ∷ some "sysfs/init_regions"
    ∷ some "sysfs/schemes_tried_regions"
    ∷ some "sysfs/schemes_tried_regions_sz"
    ∷ some "sysfs/schemes_filters"
    ∷ some "sysfs/schemes_filters_anon"
    ∷ some "sysfs/schemes_filters_memcg"
    ∷ some "sysfs/schemes_filters_addr"
    ∷ some "sysfs/schemes_filters_target"
    ∷ some "sysfs/schemes_filters_young"
    ∷ some "sysfs/schemes_filters_hugepage_size"
    ∷ some "sysfs/schemes_filters_unmapped"
    ∷ some "sysfs/schemes_filters_active"
    ∷ some "sysfs/damos_filter_probe_hits_wsum"
    ∷ some "sysfs/schemes_filters_core_ops_dirs"
    ∷ some "sysfs/allow_filter"
    ∷ some "sysfs/schemes_quota_goals"
    ∷ some "sysfs/schemes_quota_effective_bytes"
    ∷ some "sysfs/schemes_quota_goal_metric"
    ∷ some "sysfs/schemes_quota_goal_some_psi"
    ∷ some "sysfs/schemes_quota_goal_node_mem_used_free"
    ∷ some "sysfs/schemes_quota_goal_node_memcg_used_free"
    ∷ some "sysfs/damos_quota_goal_in_active_mem_bp"
    ∷ some "sysfs/damos_quota_goal_node_eligible_mem_bp"
    ∷ none
    ∷ some "sysfs/damos_quota_goal_tuner"
    ∷ some "sysfs/damos_quota_fail_charge_ratio"
    ∷ some "sysfs/schemes_migrate"
    ∷ some "sysfs/schemes_dests"
    ∷ some "sysfs/sz_ops_filter_passed"
    ∷ some "sysfs/damos_stat_nr_snapshots"
    ∷ some "sysfs/damos_max_nr_snapshots"
    ∷ some "sysfs/damos_action_collapse"
    ∷ none
    ∷ none
    ∷ some "sysfs/intervals_goal"
    ∷ some "sysfs/attrs_monitoring"
    ∷ some "sysfs/probe_type_anon"
    ∷ some "sysfs/probe_type_memcg"
    ∷ some "sysfs/probe_weights"
    ∷ some "sysfs/probe_preps"
    ∷ some "sysfs/probe_prep_set_pgidle"
    ∷ some "sysfs/probe_type_pgidle_unset"
    ∷ some "sysfs/probe_type_pgidle_set"
    ∷ some "sysfs/damon_sample_control"
    ∷ some "sysfs/ops_attrs"
    ∷ []

names_in_order : (f : SysfsFeature) → get_elem? names (ordinal f) ≡ some (damo_name f)
unfolding ordinal damo_name
names_in_order f = ground arith

-- No later name is this one.
abbrev avoids : Option String → List (Option String) → Bool
avoids none os = true
avoids (some n) [] = true
avoids (some n) (o ∷ os) = not (has_name o n) && avoids (some n) os

abbrev distinct : List (Option String) → Bool
distinct [] = true
distinct (o ∷ os) = avoids o os && distinct os

distinct-names : distinct names ≡ true
distinct-names = refl

-- In a list of distinct names, a name stands at one place.
avoided :
    (n : String) (os : List (Option String)) (i : ℕ) (m : String)
    → avoids (some n) os ≡ true
    → get_elem? os i ≡ some (some m)
    → str_eq m n ≡ false
avoided n [] i m a h = cc h
avoided n (o ∷ os) zero m a h = ground arith
avoided n (o ∷ os) (suc i) m a h = avoided n os i m (ground arith) h

clash :
    {P : Type 0} (m n : String) (os : List (Option String)) (i : ℕ)
    → m ≡ n
    → avoids (some m) os ≡ true
    → get_elem? os i ≡ some (some n)
    → P
clash m n os i e a h = cc (avoided m os i n a h, (eq_iff n m).1 (sym e))

one_place :
    (os : List (Option String)) (i j : ℕ) (n : String)
    → distinct os ≡ true
    → get_elem? os i ≡ some (some n)
    → get_elem? os j ≡ some (some n)
    → i ≡ j
one_place [] i j n d h k = cc h
one_place (o ∷ os) zero zero n d h k = refl
one_place (none ∷ os) zero (suc j) n d h k = cc h
one_place (some m ∷ os) zero (suc j) n d h k = clash m n os j (ground arith) (ground arith) k
one_place (none ∷ os) (suc i) zero n d h k = cc k
one_place (some m ∷ os) (suc i) zero n d h k = clash m n os i (ground arith) (ground arith) h
one_place (o ∷ os) (suc i) (suc j) n d h k = ap suc (one_place os i j n (ground arith) h k)

placed :
    (f : SysfsFeature) (n : String)
    → damo_name f ≡ some n
    → get_elem? names (ordinal f) ≡ some (some n)
placed f n h = names_in_order f ∙ ap some h

has_name_iff : (o : Option String) (n : String) → (has_name o n ≡ true) ↔ (o ≡ some n)
has_name_iff none n = (λ h. ground arith, λ h. ground arith)
has_name_iff (some own) n =
    (λ h. ap some ((eq_iff own n).0 h), λ h. (eq_iff own n).1 (ground arith))

-- A name finds the features that have it.
module _ (f g : SysfsFeature) (n : String) (h : damo_name f ≡ some n) where
  same_feature : has_name (damo_name g) n ≡ true → (ordinal g == ordinal f) ≡ true
  same_feature e =
      let p =
        one_place names (ordinal g) (ordinal f) n distinct-names
          (placed g n ((has_name_iff (damo_name g) n).0 e)) (placed f n h) in
      ground arith

  same_name : (ordinal g == ordinal f) ≡ true → has_name (damo_name g) n ≡ true
  same_name e =
      let p : ordinal g ≡ ordinal f = ground arith in
      let q = sym (names_in_order g) ∙ ap (get_elem? names) p ∙ placed f n h in
      (has_name_iff (damo_name g) n).1 (ground (arith, q))

  named-feature_eq : has_name (damo_name g) n ≡ feature_eq g f
  unfolding feature_eq
  named-feature_eq = elim (Bool-cases (has_name (damo_name g) n)) [
    | inl e ↦ e ∙ sym (same_feature e)
    | inr d ↦ elim (Bool-cases (ordinal g == ordinal f)) [
      | inl e ↦ cc (d, same_name e)
      | inr k ↦ d ∙ sym k
    ]
  ]

find_named-feature :
    (cs : List FeatureCapability) (f : SysfsFeature) (n : String)
    → damo_name f ≡ some n
    → find_named cs n ≡ find_feature cs f
find_named-feature [] f n h = refl
find_named-feature (c ∷ cs) f n h =
    rw (named-feature_eq f c.feature n h, find_named-feature cs f n h) refl

-- For a name that the damo tool gives a feature, the lookup by the name finds what the lookup of
-- the feature finds: no two features share a name.
pub damo_feature_support-find :
    (c : Capabilities) (f : SysfsFeature) (n : String)
    → damo_name f ≡ some n
    → damo_feature_support c n ≡ find_feature c.features f
unfolding damo_feature_support
damo_feature_support-find c f n h = find_named-feature c.features f n h
