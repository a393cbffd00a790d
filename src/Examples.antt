-- ===== src/Examples.antt =====
-- Each theorem applied to concrete configurations and values.
mod Data
mod Hierarchy
mod Parts
mod Conversions
mod Files
mod Session
mod Workflow
mod Updates
mod Restore
mod Capabilities
mod Receipt
