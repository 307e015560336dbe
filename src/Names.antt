-- ===== src/Names.antt =====
-- names.c: made names.
pub mod Ops
pub mod Unique
mod Tests
