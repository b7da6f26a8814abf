-- ===== src/Notify.antt =====
-- internal/notify: the alert relay.
pub mod Relay
