-- ===== src/Abi.antt =====
-- src/sysfs/abi.rs and the kernel enumerations of src/sysfs/configuration/model.rs, a module for
-- each enumeration. An enumeration of the kernel ABI has its values, and `unknown` for what a
-- newer kernel introduces.
pub mod Operation
pub mod KdamondCommand
pub mod KdamondState
pub mod Action
pub mod ProbeFilterType
pub mod SchemeFilterType
pub mod ProbePreparationAction
pub mod SampleFilterType
pub mod WatermarkMetric
pub mod QuotaGoalMetric
pub mod QuotaGoalTuner
pub mod RoundTrip
