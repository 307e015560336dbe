-- ===== src/Console.antt =====
-- console.c: the commands of the console, and its lines.
pub mod Ops
pub mod Lines
pub mod Parts
pub mod Registered
pub mod Sound
pub mod Safety
mod Tests
