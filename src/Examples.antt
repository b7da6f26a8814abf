-- ===== src/Examples.antt =====
-- Concrete runs: the theorems at inputs where their hypotheses hold.
pub mod Releases
pub mod Alerts
pub mod Relays
pub mod Access
pub mod Reports
pub mod Deploys
pub mod Security
pub mod Sources
pub mod Audits
pub mod Retention
