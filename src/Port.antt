-- ===== src/Port.antt =====
-- port.c: making a port.
pub mod Ops
pub mod Amounts
pub mod Stock
pub mod Requires
mod Tests
