-- ===== src/Connection.antt =====
-- connection.c, server.c: the workers and the disconnection of one connection.
pub mod Ops
pub mod Exclusive
mod Tests
