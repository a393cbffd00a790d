-- ===== src/Monitor.antt =====
-- src/monitor: sessions that own the DAMON hierarchy, a module for each part of the directory.
pub mod Retry
pub mod Staged
pub mod Hierarchy
pub mod Persistent
pub mod Workflow
