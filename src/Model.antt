-- ===== src/Model.antt =====
-- src/sysfs/configuration/model.rs and the files below it: owned configuration values and their
-- validation. A bound that the source takes from its integer types is a hypothesis where it
-- matters.
pub mod Region
pub mod Target
pub mod Align
pub mod Layer
pub mod Filter
pub mod Placement
pub mod Quota
pub mod Watermarks
pub mod Scheme
pub mod Probe
pub mod Sample
pub mod IntervalsGoal
pub mod Context
pub mod Damon
