-- ===== src/Sysfs/Capabilities.antt =====
-- src/sysfs/capabilities/model.rs: what discovery found of the operations and of the optional
-- features, and how later evidence changes it.
pub mod Feature
pub mod Support
pub mod Evidence
pub mod Names
use damon_rs.Common.{
  ℕ, ltb, Bool, true, false, Option, none, some, unwrap_or, String, List, [], ◌∷◌, ◌++◌, map,
  str_eq, if◌then◌else◌,
}
use damon_rs.Abi.Operation.{
  Operation, virtual_address, fixed_virtual_address, physical_address, unknown,
}
use damon_rs.Sysfs.Capabilities.Feature.{
  SysfsFeature, virtual_address_operation, physical_address_operation,
  fixed_virtual_address_operation, feature_eq, damo_name,
}

pub data CapabilitySupport : Type 0 where
  supported unsupported requires_staging unverified : CapabilitySupport

pub record FeatureCapability : Type 0 where
  pub feature : SysfsFeature
  pub support : CapabilitySupport

pub record OperationCapability : Type 0 where
  pub operation : Operation
  pub support : CapabilitySupport

pub record Capabilities : Type 0 where
  pub operations : List OperationCapability
  pub features : List FeatureCapability
  pub attribute_paths : List String

-- The derived `==`
unfoldable pub operation_eq : Operation → Operation → Bool
operation_eq virtual_address virtual_address = true
operation_eq fixed_virtual_address fixed_virtual_address = true
operation_eq physical_address physical_address = true
operation_eq (unknown a) (unknown b) = str_eq a b
operation_eq _ _ = false

-- `iter().find(..)`, with the support of what it finds.
abbrev pub find_operation : List OperationCapability → Operation → Option CapabilitySupport
find_operation [] operation = none
find_operation (c ∷ cs) operation =
    if operation_eq c.operation operation then some c.support else find_operation cs operation

abbrev pub find_feature : List FeatureCapability → SysfsFeature → Option CapabilitySupport
find_feature [] feature = none
find_feature (c ∷ cs) feature =
    if feature_eq c.feature feature then some c.support else find_feature cs feature

unfoldable pub operation_support : Capabilities → Operation → Option CapabilitySupport
operation_support self operation = find_operation self.operations operation

abbrev is_supported : Option CapabilitySupport → Bool
is_supported (some supported) = true
is_supported _ = false

unfoldable pub supports_operation : Capabilities → Operation → Bool
unfolding operation_support
supports_operation self operation = is_supported (operation_support self operation)

unfoldable pub feature_support : Capabilities → SysfsFeature → CapabilitySupport
feature_support self feature = unwrap_or (find_feature self.features feature) unsupported

abbrev pub has_name : Option String → String → Bool
has_name none name = false
has_name (some own) name = str_eq own name

abbrev pub find_named : List FeatureCapability → String → Option CapabilitySupport
find_named [] name = none
find_named (c ∷ cs) name =
    if has_name (damo_name c.feature) name then some c.support else find_named cs name

unfoldable pub damo_feature_support : Capabilities → String → Option CapabilitySupport
damo_feature_support self name = find_named self.features name

unfoldable pub operation_capability : Operation → CapabilitySupport → OperationCapability
operation_capability operation value = record { operation = operation; support = value }

-- Of the first capability of the feature, the support is replaced.
unfoldable pub set_feature_support :
    List FeatureCapability → SysfsFeature → CapabilitySupport → List FeatureCapability
set_feature_support [] feature value = []
set_feature_support (c ∷ cs) feature value =
    let rest = set_feature_support cs feature value in
    if feature_eq c.feature feature then record c { support = value } ∷ cs else c ∷ rest

-- A pass of the loop of `sync_operation_features`.
unfoldable pub sync_operation_feature : Operation → SysfsFeature → Capabilities → Capabilities
unfolding operation_support set_feature_support
sync_operation_feature operation feature self = record self {
  features =
      set_feature_support self.features feature
        (unwrap_or (operation_support self operation) unsupported);
}

unfoldable pub sync_operation_features : Capabilities → Capabilities
unfolding sync_operation_feature
sync_operation_features self =
    sync_operation_feature fixed_virtual_address fixed_virtual_address_operation (
      sync_operation_feature physical_address physical_address_operation
        (sync_operation_feature virtual_address virtual_address_operation self))

unfoldable pub replace_operations : List OperationCapability → Capabilities → Capabilities
unfolding sync_operation_features
replace_operations operations self =
    sync_operation_features (record self { operations = operations })

-- `iter_mut().find(..)` with the support set, or else one more at the end.
unfoldable pub confirm_in : Operation → List OperationCapability → List OperationCapability
unfolding operation_capability
confirm_in operation [] = operation_capability operation supported ∷ []
confirm_in operation (c ∷ cs) =
    let rest = confirm_in operation cs in
    if operation_eq c.operation operation then record c { support = supported } ∷ cs else c ∷ rest

unfoldable pub confirm_operation : Operation → Capabilities → Capabilities
unfolding sync_operation_features confirm_in
confirm_operation operation self =
    sync_operation_features (record self { operations = confirm_in operation self.operations })

unfoldable pub confirm_feature : SysfsFeature → Capabilities → Capabilities
unfolding set_feature_support
confirm_feature feature self = record self {
  features = set_feature_support self.features feature supported;
}

unfoldable pub reject_feature : SysfsFeature → Capabilities → Capabilities
unfolding set_feature_support
reject_feature feature self = record self {
  features = set_feature_support self.features feature unsupported;
}

abbrev apply_each : List FeatureCapability → List FeatureCapability → List FeatureCapability
apply_each [] features = features
apply_each (c ∷ cs) features = apply_each cs (set_feature_support features c.feature c.support)

unfoldable pub apply_feature_capabilities : List FeatureCapability → Capabilities → Capabilities
unfolding set_feature_support
apply_feature_capabilities capabilities self = record self {
  features = apply_each capabilities self.features;
}

-- `combine_support` of src/sysfs/capabilities/discovery.rs
unfoldable pub combine_support : CapabilitySupport → CapabilitySupport → CapabilitySupport
combine_support unsupported structural = unsupported
combine_support semantic unsupported = unsupported
combine_support requires_staging structural = requires_staging
combine_support semantic requires_staging = requires_staging
combine_support unverified structural = unverified
combine_support semantic unverified = unverified
combine_support supported supported = supported

unfoldable pub capability_support_rank : CapabilitySupport → ℕ
capability_support_rank unsupported = 0
capability_support_rank requires_staging = 1
capability_support_rank unverified = 2
capability_support_rank supported = 3

unfoldable pub stronger : CapabilitySupport → CapabilitySupport → CapabilitySupport
unfolding capability_support_rank
stronger existing addition =
    if ltb (capability_support_rank existing) (capability_support_rank addition)
    then addition
    else existing

-- The body of the loop of `merge_feature_capabilities`.
unfoldable pub merge_one : FeatureCapability → List FeatureCapability → List FeatureCapability
unfolding stronger
merge_one addition [] = addition ∷ []
merge_one addition (c ∷ cs) =
    let rest = merge_one addition cs in
    if feature_eq c.feature addition.feature
    then record c { support = stronger c.support addition.support } ∷ cs
    else c ∷ rest

unfoldable pub merge_feature_capabilities :
    List FeatureCapability → List FeatureCapability → List FeatureCapability
unfolding merge_one
merge_feature_capabilities capabilities [] = capabilities
merge_feature_capabilities capabilities (a ∷ additions) =
    merge_feature_capabilities (merge_one a capabilities) additions
