-- ===== src/Loadconfig.antt =====
-- loadconfig.c: the files of the configuration, and the checks after it is loaded.
pub mod Ops
pub mod Needed
pub mod Sane
mod Tests
