-- ===== src/Examples/Capabilities.antt =====
-- Evidence on the operations and features of a kernel.
use damon_rs.Common.{◌≡◌, refl, List, [], ◌∷◌, max}
use damon_rs.Abi.Operation.{virtual_address, physical_address}
use damon_rs.Sysfs.Capabilities.Feature.{
  virtual_address_operation, tried_regions, address_unit, damo_name,
}
use damon_rs.Sysfs.Capabilities.{
  supported, unsupported, unverified, requires_staging, Capabilities, FeatureCapability,
  find_feature, damo_feature_support, confirm_operation, merge_feature_capabilities,
}
use damon_rs.Sysfs.Capabilities.Names.{damo_feature_support-find}
use damon_rs.Sysfs.Capabilities.Evidence.{
  IsConfirmed, strength, strongest, confirm_operation-IsConfirmed,
  merge_feature_capabilities-strongest,
}

abbrev observed_features : List FeatureCapability
observed_features =
    record { feature = virtual_address_operation; support = unverified }
    ∷ record { feature = tried_regions; support = requires_staging }
    ∷ []

abbrev later_features : List FeatureCapability
later_features =
    record { feature = tried_regions; support = supported }
    ∷ record { feature = address_unit; support = unsupported }
    ∷ record { feature = tried_regions; support = unverified }
    ∷ []

abbrev discovered : Capabilities
discovered = record {
  operations = record { operation = physical_address; support = unverified } ∷ [];
  features = observed_features;
  attribute_paths = "state" ∷ [];
}

confirm_operation-IsConfirmed_example :
    IsConfirmed virtual_address discovered (confirm_operation virtual_address discovered)
confirm_operation-IsConfirmed_example = confirm_operation-IsConfirmed virtual_address discovered

merge_feature_capabilities-strongest_example :
    strength
      (find_feature (merge_feature_capabilities observed_features later_features) tried_regions)
    ≡ max
        (strength (find_feature observed_features tried_regions))
        (strongest later_features tried_regions)
merge_feature_capabilities-strongest_example =
    merge_feature_capabilities-strongest observed_features later_features tried_regions

damo_feature_support-find_example :
    damo_feature_support discovered "sysfs/schemes_tried_regions"
    ≡ find_feature observed_features tried_regions
unfolding damo_name
damo_feature_support-find_example =
    damo_feature_support-find discovered tried_regions "sysfs/schemes_tried_regions" refl
