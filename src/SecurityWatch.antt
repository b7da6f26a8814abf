-- ===== src/SecurityWatch.antt =====
-- internal/securitywatch: the reports of the security checks and their delivery.
pub mod Types
pub mod Release
pub mod Tools
pub mod Scans
pub mod Host
pub mod Inventory
pub mod Delivery
