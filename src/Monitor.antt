-- ===== src/Monitor.antt =====
-- Diagnostics: internal/monitor.
pub mod Tracker
pub mod Status
pub mod Client
pub mod Server
