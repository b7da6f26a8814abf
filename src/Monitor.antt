-- ===== src/Monitor.antt =====
-- internal/monitor: health checks, the record of their results, and alerts on transitions.
pub mod Types
pub mod Alerts
pub mod Checks
