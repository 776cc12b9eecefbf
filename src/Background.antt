-- ===== src/Background.antt =====
-- honeybeepf-llm/honeybeepf-llm/src/probes/builtin/llm/background.rs: the background calls of a node
-- that still run, by response id.
pub mod Calls
pub mod Bounds
