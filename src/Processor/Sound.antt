-- ===== src/Processor/Sound.antt =====
-- What holds of a connection between two fragments, and that every fragment keeps it.
pub mod Invariant
pub mod Event
pub mod Settle
pub mod Handled
pub mod Http2
pub mod Fragment
