-- ===== src/Sender.antt =====
-- The sending daemon: internal/sender.
pub mod Folder
pub mod Items
pub mod Queue
pub mod Scanner
pub mod Transfer
pub mod Worker
pub mod Dial
pub mod Crew
pub mod Daemon
