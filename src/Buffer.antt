-- ===== src/Buffer.antt =====
-- buffer.c: the buffer of a connection.
pub mod Ops
pub mod Bounds
mod Tests
