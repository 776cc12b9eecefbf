-- ===== src/H2.antt =====
-- honeybeepf-llm/honeybeepf-llm/src/probes/builtin/llm/http/h2: connections, their streams and bodies.
pub mod Stream
pub mod StreamMap
pub mod Types
pub mod Blocks
pub mod Frames
pub mod Conn
pub mod Budget
pub mod Settled
