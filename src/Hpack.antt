-- ===== src/Hpack.antt =====
-- honeybeepf-llm/honeybeepf-llm-core/src/h2/hpack.rs and huffman.rs: header block decoding.
pub mod Types
pub mod Integer
pub mod Huffman
pub mod Static
pub mod Strings
pub mod Table
pub mod Decode
pub mod Reference
