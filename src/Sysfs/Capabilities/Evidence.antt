-- ===== src/Sysfs/Capabilities/Evidence.antt =====
-- Confirmed operations, and merged evidence.
use damon_rs.Common.{
  ℕ, suc, ◌≡◌, ◌≢◌, inl, inr, refl, true, false, Option, none, some, List, [], ◌∷◌, arith, max, min,
  ap, sym, ◌∙◌, if◌then◌else◌, Bool-cases,
}
use damon_rs.Abi.Operation.{Operation}
use damon_rs.Sysfs.Capabilities.Feature.{SysfsFeature, feature_eq}
use damon_rs.Sysfs.Capabilities.{
  CapabilitySupport, supported, FeatureCapability, Capabilities, operation_eq, find_operation,
  find_feature, operation_support, confirm_in, confirm_operation, combine_support,
  capability_support_rank, stronger, merge_one, merge_feature_capabilities,
}
use damon_rs.Sysfs.Capabilities.Support.{
  IsSynced, IsOther, feature_eq-same, feature_eq-apart, operation_eq_iff, find-confirm,
  sync_operation_features-IsSyncOf,
}

pub record IsConfirmed (op : Operation) (c c' : Capabilities) : Type 0 where
  pub confirmed : operation_support c' op ≡ some supported
  pub other_operations : (o : Operation) → o ≢ op → operation_support c' o ≡ operation_support c o
  pub synced : IsSynced c'
  pub other_features :
      (g : SysfsFeature) → IsOther g → find_feature c'.features g ≡ find_feature c.features g
  pub paths : c'.attribute_paths ≡ c.attribute_paths

apart : (op o : Operation) → o ≢ op → operation_eq op o ≡ false
apart op o n = elim (Bool-cases (operation_eq op o)) [
  | inl e ↦ absurd (n (sym ((operation_eq_iff op o).0 e)))
  | inr e ↦ e
]

-- After an operation is confirmed, it is supported, other operations have the support they had,
-- the feature of each known operation agrees with the support of the operation, and all other
-- features and the attribute paths are unchanged.
pub confirm_operation-IsConfirmed :
    (op : Operation) (c : Capabilities) → IsConfirmed op c (confirm_operation op c)
unfolding confirm_operation operation_support
confirm_operation-IsConfirmed op c =
    let c1 : Capabilities = record c { operations = confirm_in op c.operations } in
    let s = sync_operation_features-IsSyncOf c1 in
    let found = λ (o : Operation).
      ap (λ os. find_operation os o) s.operations ∙ find-confirm c.operations op o in
    let itself : operation_eq op op ≡ true = (operation_eq_iff op op).1 refl in
    record {
      confirmed = found op ∙ rw itself refl;
      other_operations = λ o n. found o ∙ rw (apart op o n) refl;
      synced = s.synced;
      other_features = s.others;
      paths = s.paths;
    }

-- The strength of what is found: nothing is the weakest.
abbrev pub strength : Option CapabilitySupport → ℕ
strength none = 0
strength (some s) = suc (capability_support_rank s)

-- The strongest evidence on the feature among the additions.
abbrev pub strongest : List FeatureCapability → SysfsFeature → ℕ
strongest [] f = 0
strongest (a ∷ es) f =
    max (if feature_eq a.feature f then strength (some a.support) else 0) (strongest es f)

stronger-max :
    (s t : CapabilitySupport)
    → capability_support_rank (stronger s t)
      ≡ max (capability_support_rank s) (capability_support_rank t)
unfolding stronger
stronger-max s t = ground arith

merge_one-strength :
    (a : FeatureCapability) (cs : List FeatureCapability) (f : SysfsFeature)
    → strength (find_feature (merge_one a cs) f)
      ≡ max
          (strength (find_feature cs f))
          (if feature_eq a.feature f then strength (some a.support) else 0)
unfolding merge_one
merge_one-strength a [] f = ground arith
merge_one-strength a (c ∷ cs) f = elim (Bool-cases (feature_eq c.feature a.feature)) [
  | inl e ↦
      ground (arith, e, feature_eq-same c.feature a.feature f e, stronger-max c.support a.support)
  | inr n ↦ ground (arith, n, merge_one-strength a cs f, feature_eq-apart c.feature a.feature f n)
]

-- After a merge, a feature has the strongest support among what was found before and all
-- additions on it, in whichever order they come.
pub merge_feature_capabilities-strongest :
    (cs es : List FeatureCapability) (f : SysfsFeature)
    → strength (find_feature (merge_feature_capabilities cs es) f)
      ≡ max (strength (find_feature cs f)) (strongest es f)
unfolding merge_feature_capabilities
merge_feature_capabilities-strongest cs [] f = omega arith
merge_feature_capabilities-strongest cs (a ∷ es) f =
    omega
      (arith, merge_feature_capabilities-strongest (merge_one a cs) es f, merge_one-strength a cs f)

-- The support of a feature is the weaker of what its two sources show.
pub combine_support-weaker :
    (s t : CapabilitySupport)
    → capability_support_rank (combine_support s t)
      ≡ min (capability_support_rank s) (capability_support_rank t)
unfolding combine_support capability_support_rank
combine_support-weaker s t = ground arith
