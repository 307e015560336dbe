-- ===== src/Common.antt =====
-- common.c: the helpers that the other parts use.
pub mod Ops
pub mod Bounds
mod Tests
