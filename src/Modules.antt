-- ===== src/Modules.antt =====
-- module.c: loaded modules.
pub mod Ops
pub mod Distinct
mod Tests
