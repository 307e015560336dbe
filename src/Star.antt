-- ===== src/Star.antt =====
-- star.c: the stars of a system.
pub mod Ops
pub mod Bounds
mod Tests
