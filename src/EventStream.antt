-- ===== src/EventStream.antt =====
-- http/eventstream.rs: AWS event stream bodies, a message at a time.
pub mod Message
pub mod Base64
pub mod Cursor
pub mod Append
pub mod Rounds
pub mod Split
