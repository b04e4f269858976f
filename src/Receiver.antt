-- ===== src/Receiver.antt =====
-- The receiving daemon: internal/receiver.
pub mod Disk
pub mod Stager
pub mod Commit
pub mod Connection
pub mod Server
