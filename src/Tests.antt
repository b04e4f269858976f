-- ===== src/Tests.antt =====
-- Concrete inputs: the theorems at data that exercise the code, and runs of the definitions.
mod Data
mod Sorting
mod Peers
mod Sender
mod Wire
mod Receiver
mod Durable
mod Crew
mod Daemon
mod Server
mod Lasting
mod Monitor
mod Polls
mod Certs
mod Command
