-- ===== src/SslClass.antt =====
-- honeybeepf-llm/honeybeepf-llm-common/src/ssl_class.rs: the class of a connection, kept in the low
-- byte of a 64-bit entry, with the time the entry was made above it.
pub mod Types
pub mod Entry
pub mod Spec
pub mod Standings
pub mod Arms
pub mod Refine
pub mod Drops
