-- ===== src/Frame.antt =====
-- honeybeepf-llm/honeybeepf-llm-core/src/h2/frame.rs: HTTP/2 frames read from one direction's
-- bytes, split at any point.
pub mod Types
pub mod FrameType
pub mod Flags
pub mod Heads
pub mod Payload
pub mod Scan
pub mod Read
pub mod Invariant
pub mod PayloadProgress
pub mod Progress
pub mod Turns
pub mod Returns
pub mod Runs
pub mod Chains
pub mod Anchor
