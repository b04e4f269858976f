-- ===== src/Wire.antt =====
-- The wire protocol: internal/wire/protocol.go.
pub mod Io
pub mod Outcome
pub mod Filename
pub mod BigEndian
pub mod ByteSize
pub mod Deadline
pub mod Header
pub mod Response
pub mod Stream
