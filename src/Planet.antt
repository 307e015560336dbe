-- ===== src/Planet.antt =====
-- planet.c: the planets of a system.
pub mod Ops
pub mod Bounds
pub mod Sorted
mod Tests
