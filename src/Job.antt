-- ===== src/Job.antt =====
-- internal/platform/job: jobs that run at an interval or on request. Each run is a workload that is
-- made for it; a failed run is tried again a number of times, and old runs are pruned.
pub mod Types
pub mod Rows
pub mod Runs
pub mod Sweep
pub mod Counting
pub mod Reading
pub mod Starting
pub mod Firing
pub mod Due
pub mod Settling
pub mod Apart
pub mod Sweeping
pub mod Passes
pub mod Examples
