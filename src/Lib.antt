-- ===== src/Lib.antt =====
-- damon: a Rust library that configures DAMON, the kernel's data access monitor, through its sysfs
-- hierarchy. These modules model its configuration values, with all their validations, the comparison
-- of a configuration with the one read back, and the results of monitoring.
--
-- A caller builds a hierarchy of kdamonds, contexts, targets and schemes. The library validates it,
-- writes it to sysfs, reads it back, and compares the two, up to what the kernel normalizes: a size
-- that a 32-bit kernel narrows, and the directory that a filter lands in. A running scheme reports
-- regions, in the address units of its context, which a snapshot gives back with a byte scale. A
-- session holds the hierarchy: it starts each kdamond and records its thread, checks before each step
-- that files and threads are still its own, and in the end stops what it recorded and restores the
-- files that it found. Other controllers may change the files at any time. A persistent receipt carries
-- what such a session recorded from one process to another, in bytes.
--
--   Common     Boolean tests, lists and texts over the native numbers, and checked machine integers
--   Error      src/error.rs: the errors, and results; Error/Checks: what passes a sequence of checks
--   Config     src/config.rs: AddressUnit, Pid, MonitoringIntervals, RegionBounds, durations
--   Abi        src/sysfs/abi.rs and the enumerations of src/sysfs/configuration/model.rs: names
--   Pattern    src/sysfs/abi.rs: ranges, AccessPattern and its normalize_kernel_width
--   Validate   src/sysfs/configuration/helpers.rs: validate_count, validate_token, validate_sysfs_string
--   Model      src/sysfs/configuration/model.rs and the files below it, a module for each type, named
--              for it, with `validate` and its variants as the source has them; Model/Align and
--              Model/Placement are from src/sysfs/configuration/helpers.rs, with the lists of filters
--              for each directory from src/sysfs/configuration/staging.rs
--   Region     src/region.rs: ProbeHits, RawRegion, RawSnapshot, Region; Region/Tried:
--              Scheme::tried_regions of src/sysfs/scheme/mod.rs, over files that are a parameter
--   Io         src/sysfs/io.rs: match_configuration_chunk, read_configuration_value_equals; Io/Write:
--              write_once, write_bytes and the journal of collect_writes
--   Sysfs      src/sysfs/admin.rs: a kdamond's state, commands and thread, over the functions of
--              src/sysfs/io.rs, a parameter that answers from a state; Sysfs/Actions: fallible actions
--              on a state; Sysfs/Paths: paths by components; Sysfs/Ownership: src/sysfs/ownership.rs,
--              fingerprints and restoration; Sysfs/Capabilities: src/sysfs/capabilities/model.rs, with
--              combine_support and merge_feature_capabilities of discovery.rs
--   Monitor    src/monitor/: Retry and Staged are from ownership.rs (retry_busy, StagedOwnership),
--              Hierarchy from hierarchy.rs, with start_all, stop_all, rollback_started and close_inner
--              in Hierarchy/Lifecycle, validate_selected_indices and without_obsolete_targets in
--              Hierarchy/Selection and Hierarchy/Obsolete; Persistent from persistent.rs, with to_bytes,
--              from_bytes and its Decoder in Persistent/Codec; Workflow from workflow.rs, with the
--              snapshot queries in Workflow/Query and the errors of staging in Workflow/Failures
--   Examples   each result at a concrete input
--
-- A struct is a record with the source's fields, a method takes its receiver first, and `?` is the
-- bind of Result. A loop is structural recursion over the list that it goes through, with its mutable
-- variables as arguments, so it needs no fuel. A machine integer is a natural number; checked
-- arithmetic is `fit`, with the type's bound. A bound that only the source's types give is a
-- hypothesis, such as region ends that fit u64. A text is its list of characters, and a duration its
-- number of nanoseconds. The host's page size is the parameter `page`. What the calls of open, read and
-- write return is given, as lists; where every call of write so far was interrupted, the result of the
-- write is `none`.
--
-- A method of `&self` that reads the system is an action on its state, and one of `&mut self` an action
-- on the handle and that state; an error keeps the state reached. The state type is a parameter, so each
-- answer of the system may differ from the one before. `retry_busy` recurs on the retries that are left,
-- at most five, and the decoder's loops on the counts that they read. A path of a receipt is its bytes,
-- a text its bytes in UTF-8, and `usize` has 64 bits.
--
-- Of the filters that are read back, the model has the placement and the order: the writes and the reads
-- of a filter's attributes, and their failures, are not modelled.
--
-- Not modelled: other reading and writing of sysfs attributes, the discovery of capabilities, the
-- transaction of an update of a running hierarchy, start_workflow and the snapshot requests, runtime
-- batches, and attached handles, which the model has not reached; the session lock, which is a call
-- of flock, and threads; Display and Debug texts; the unit tests and their fake file system.
mod Common
mod Examples
pub mod Abi
pub mod Error
pub mod Config
pub mod Pattern
pub mod Validate
pub mod Model
pub mod Region
pub mod Io
pub mod Sysfs
pub mod Monitor
