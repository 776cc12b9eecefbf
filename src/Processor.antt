-- ===== src/Processor.antt =====
-- llm/processor.rs: what one connection's captured fragments lead to.
pub mod Types
pub mod Gaps
pub mod Settle
pub mod Event
pub mod Ahead
pub mod Fragment
pub mod Sound
pub mod Closed
pub mod Accounts
