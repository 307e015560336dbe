-- ===== src/Player.antt =====
-- player.c and player.h: the player, the commands at each place, and what the commands do.
pub mod Name
pub mod Ops
pub mod Handlers
pub mod Commands
pub mod Safety
pub mod Moves
pub mod Lines
pub mod Play
mod Tests
