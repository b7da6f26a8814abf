-- ===== src/Deploy.antt =====
-- internal/deploy: the watchdog and the deploy strategies.
pub mod Watchdog
pub mod Strategy
pub mod BlueGreen
