-- ===== src/Tests.antt =====
-- Concrete runs of the models, and the theorems at concrete inputs.
mod Frames
mod Headers
mod Bodies
mod Calls
mod Conns
mod Processors
