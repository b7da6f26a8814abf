-- ===== src/ReleaseJob.antt =====
-- internal/releasejob: release jobs, their contract, their store and their execution.
pub mod Types
pub mod Contract
pub mod Store
pub mod Executor
