-- ===== src/H2/Budget.antt =====
-- The bytes that a connection counts are those that its streams hold, within its bounds.
pub mod Streams
pub mod Frames
pub mod Feed
pub mod Node
pub mod Wrap
