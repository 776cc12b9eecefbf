-- ===== src/Events.antt =====
-- llm/mod.rs and conn_filter.rs: the events of all connections, routed to their streams.
pub mod Loop
pub mod Sound
pub mod Runs
pub mod Filter
