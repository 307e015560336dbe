-- ===== src/PortUpdate.antt =====
-- port_update.c: what a round of updates does to the cargo of ports.
pub mod Ops
pub mod Bounds
mod Tests
pub mod Rounds
