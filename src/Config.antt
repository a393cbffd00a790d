-- ===== src/Config.antt =====
-- src/config.rs: address units, process identifiers, monitoring intervals and region bounds, a
-- module for each type.
pub mod Duration
pub mod AddressUnit
pub mod Pid
pub mod MonitoringIntervals
pub mod RegionBounds
