-- ===== src/Trade.antt =====
-- ship.c, cargo.h, item.h, and the trading commands of player.c.
pub mod Ops
pub mod Moves
pub mod Affordable
pub mod Credits
pub mod Payments
mod Tests
