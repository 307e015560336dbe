-- ===== src/Cli.antt =====
-- cli.c: the command interpreter.
pub mod Ops
pub mod Table
pub mod Lines
pub mod Trim
pub mod Words
pub mod Calls
mod Tests
