-- ===== src/Universe.antt =====
-- universe.c, system.c: where systems are, the tree of them by x, and neighbours.
pub mod Ops
pub mod Ascending
pub mod Search
pub mod Neighbours
pub mod Move
pub mod Links
pub mod Nearest
pub mod Tests
