-- ===== src/JsonEnds.antt =====
-- honeybeepf-llm/honeybeepf-llm/src/probes/builtin/llm/http/json_ends.rs: following a body to its
-- framed end while only both ends are kept.
pub mod Walk
pub mod Ends
pub mod Returns
