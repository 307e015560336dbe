-- ===== src/Starmap.antt =====
-- map.c: the text of a map.
pub mod Ops
pub mod Bounds
pub mod Drawing
mod Tests
