-- ===== src/Sysfs/Capabilities/Support.antt =====
-- What the changes of the capabilities do to the evidence.
use damon_rs.Common.{
  Bool-cases, inl, inr, String, ℕ, ◌≡◌, refl, true, false, Option, none, some, unwrap_or, List, [],
  ◌∷◌, ◌↔◌, arith, ap, sym, ◌∙◌, eq_iff, if◌then◌else◌, ◌==◌,
}
use damon_rs.Abi.Operation.{
  Operation, virtual_address, fixed_virtual_address, physical_address, unknown,
}
use damon_rs.Sysfs.Capabilities.Feature.{
  SysfsFeature, virtual_address_operation, physical_address_operation,
  fixed_virtual_address_operation, feature_eq, ordinal,
}
use damon_rs.Sysfs.Capabilities.{
  CapabilitySupport, supported, unsupported, FeatureCapability, OperationCapability, Capabilities,
  operation_eq, find_operation, find_feature, operation_support, set_feature_support,
  sync_operation_feature, sync_operation_features, confirm_in,
}

same_trans : (x y z : ℕ) → (x == y) ≡ true → (x == z) ≡ (y == z)
same_trans x y z h = ground arith

apart_trans : (x y z : ℕ) → (x == y) ≡ false → (x == z) ≡ true → (y == z) ≡ false
apart_trans x y z h k = ground arith

pub feature_eq-same :
    (c f g : SysfsFeature) → feature_eq c f ≡ true → feature_eq c g ≡ feature_eq f g
unfolding feature_eq
feature_eq-same c f g h = same_trans (ordinal c) (ordinal f) (ordinal g) h

pub feature_eq-apart :
    (c f g : SysfsFeature) → feature_eq c f ≡ false → feature_eq c g ≡ true → feature_eq f g ≡ false
unfolding feature_eq
feature_eq-apart c f g h k = apart_trans (ordinal c) (ordinal f) (ordinal g) h k

abbrev name_of : Operation → String
name_of (unknown name) = name
name_of _ = ""

pub operation_eq_iff : (a b : Operation) → (operation_eq a b ≡ true) ↔ (a ≡ b)
unfolding operation_eq
operation_eq_iff virtual_address virtual_address = (λ h. refl, λ h. refl)
operation_eq_iff fixed_virtual_address fixed_virtual_address = (λ h. refl, λ h. refl)
operation_eq_iff physical_address physical_address = (λ h. refl, λ h. refl)
operation_eq_iff (unknown a) (unknown b) =
    (λ h. ap unknown ((eq_iff a b).0 h), λ h. (eq_iff a b).1 (ap name_of h))
operation_eq_iff _ _ = (λ h. ground arith, λ h. ground arith)

abbrev replaced : Option CapabilitySupport → CapabilitySupport → Option CapabilitySupport
replaced none s = none
replaced (some old) s = some s

-- Setting the support of a feature changes what is found of this feature, where there is such a
-- feature, and of no other.
find-set :
    (cs : List FeatureCapability) (f g : SysfsFeature) (s : CapabilitySupport)
    → find_feature (set_feature_support cs f s) g
      ≡ (if feature_eq f g then replaced (find_feature cs g) s else find_feature cs g)
unfolding set_feature_support
find-set [] f g s = ground arith
find-set (c ∷ cs) f g s = elim (Bool-cases (feature_eq c.feature f)) [
  | inl e ↦ ground (arith, e, feature_eq-same c.feature f g e)
  | inr n ↦ ground (arith, n, find-set cs f g s, feature_eq-apart c.feature f g n)
]

operation_eq-same :
    (c f g : Operation) → operation_eq c f ≡ true → operation_eq c g ≡ operation_eq f g
operation_eq-same c f g h = ap (λ o. operation_eq o g) ((operation_eq_iff c f).0 h)

operation_eq-apart :
    (c f g : Operation)
    → operation_eq c f ≡ false
    → operation_eq c g ≡ true
    → operation_eq f g ≡ false
operation_eq-apart c f g h k = elim (Bool-cases (operation_eq f g)) [
  | inl e ↦
      let same : c ≡ f = (operation_eq_iff c g).0 k ∙ sym ((operation_eq_iff f g).0 e) in
      cc ((operation_eq_iff c f).1 same, h)
  | inr e ↦ e
]

pub find-confirm :
    (cs : List OperationCapability) (op o : Operation)
    → find_operation (confirm_in op cs) o
      ≡ (if operation_eq op o then some supported else find_operation cs o)
unfolding confirm_in
find-confirm [] op o = refl
find-confirm (c ∷ cs) op o = elim (Bool-cases (operation_eq c.operation op)) [
  | inl e ↦ ground (arith, e, operation_eq-same c.operation op o e)
  | inr n ↦ ground (arith, n, find-confirm cs op o, operation_eq-apart c.operation op o n)
]

-- What is found, if anything, is the evidence.
abbrev pub Agrees : Option CapabilitySupport → Option CapabilitySupport → Type 0
Agrees none evidence = Unit
Agrees (some s) evidence = s ≡ unwrap_or evidence unsupported

-- Each operation's feature, where it is known, has the support of the operation.
pub record IsSynced (c : Capabilities) : Type 0 where
  pub vaddr :
      Agrees
        (find_feature c.features virtual_address_operation)
        (operation_support c virtual_address)
  pub paddr :
      Agrees
        (find_feature c.features physical_address_operation)
        (operation_support c physical_address)
  pub fvaddr :
      Agrees
        (find_feature c.features fixed_virtual_address_operation)
        (operation_support c fixed_virtual_address)

-- The feature is not an operation's.
abbrev pub IsOther : SysfsFeature → Type 0
IsOther g =
    (feature_eq virtual_address_operation g ≡ false)
    × (feature_eq physical_address_operation g ≡ false)
    × (feature_eq fixed_virtual_address_operation g ≡ false)

replaced-Agrees :
    (found : Option CapabilitySupport) (evidence : Option CapabilitySupport)
    → Agrees (replaced found (unwrap_or evidence unsupported)) evidence
replaced-Agrees none evidence = tt
replaced-Agrees (some s) evidence = refl

module _ (fs : List FeatureCapability) (a b d : CapabilitySupport) where
  abbrev one : List FeatureCapability
  one = set_feature_support fs virtual_address_operation a

  abbrev two : List FeatureCapability
  two = set_feature_support one physical_address_operation b

  abbrev three : List FeatureCapability
  three = set_feature_support two fixed_virtual_address_operation d

  find_three :
      (g : SysfsFeature)
      → (find_feature three g ≡ (
          if feature_eq fixed_virtual_address_operation g
          then replaced (find_feature two g) d
          else find_feature two g))
        × (find_feature two g ≡ (
            if feature_eq physical_address_operation g
            then replaced (find_feature one g) b
            else find_feature one g))
        × (find_feature one g ≡ (
            if feature_eq virtual_address_operation g
            then replaced (find_feature fs g) a
            else find_feature fs g))
  find_three g = (
    find-set two fixed_virtual_address_operation g d,
    find-set one physical_address_operation g b,
    find-set fs virtual_address_operation g a,
  )

  three-virtual :
      find_feature three virtual_address_operation
      ≡ replaced (find_feature fs virtual_address_operation) a
  unfolding feature_eq ordinal
  three-virtual = let (e, f, g) = find_three virtual_address_operation in e ∙ f ∙ g

  three-physical :
      find_feature three physical_address_operation
      ≡ replaced (find_feature fs physical_address_operation) b
  unfolding feature_eq ordinal
  three-physical =
      let (e, f, g) = find_three physical_address_operation in e ∙ f ∙ ap (λ o. replaced o b) g

  three-fixed :
      find_feature three fixed_virtual_address_operation
      ≡ replaced (find_feature fs fixed_virtual_address_operation) d
  unfolding feature_eq ordinal
  three-fixed =
      let (e, f, g) = find_three fixed_virtual_address_operation in
      e ∙ ap (λ o. replaced o d) (f ∙ g)

  three-other : (g : SysfsFeature) → IsOther g → find_feature three g ≡ find_feature fs g
  three-other g h = let (e, f, k) = find_three g in rw (e, h.2, f, h.1, k, h.0) refl

-- What the synchronization leaves.
pub record IsSyncOf (c c' : Capabilities) : Type 0 where
  pub synced : IsSynced c'
  pub others :
      (g : SysfsFeature) → IsOther g → find_feature c'.features g ≡ find_feature c.features g
  pub operations : c'.operations ≡ c.operations
  pub paths : c'.attribute_paths ≡ c.attribute_paths

pub sync_operation_features-IsSyncOf : (c : Capabilities) → IsSyncOf c (sync_operation_features c)
unfolding sync_operation_features sync_operation_feature operation_support
sync_operation_features-IsSyncOf c =
    let value = λ (o : Operation). unwrap_or (find_operation c.operations o) unsupported in
    let a = value virtual_address in
    let b = value physical_address in
    let d = value fixed_virtual_address in
    record {
      synced = record {
        vaddr = rw (three-virtual c.features a b d) (
            replaced-Agrees (find_feature c.features virtual_address_operation)
              (find_operation c.operations virtual_address));
        paddr = rw (three-physical c.features a b d) (
            replaced-Agrees (find_feature c.features physical_address_operation)
              (find_operation c.operations physical_address));
        fvaddr = rw (three-fixed c.features a b d) (
            replaced-Agrees (find_feature c.features fixed_virtual_address_operation)
              (find_operation c.operations fixed_virtual_address));
      };
      others = three-other c.features a b d;
      operations = refl;
      paths = refl;
    }
