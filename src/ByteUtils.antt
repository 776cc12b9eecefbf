-- ===== src/ByteUtils.antt =====
-- honeybeepf-llm/honeybeepf-llm-core/src/byte_utils.rs: searches in byte slices and the body of a
-- buffered chunked response.
pub mod Search
pub mod FirstMatch
pub mod Braces
pub mod Objects
pub mod Rounds
pub mod Ends
pub mod Decoded
