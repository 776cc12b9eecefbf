-- ===== src/Chunked.antt =====
-- honeybeepf-llm/honeybeepf-llm-core/src/chunked.rs: HTTP/1.1 chunked transfer coding.
pub mod Types
pub mod Walk
pub mod Lines
pub mod Ends
pub mod Seen
pub mod Digits
pub mod Sent
pub mod Meets
pub mod Split
