-- ===== src/Civ.antt =====
-- civ.c: the homes and the growth of civilizations.
pub mod Ops
pub mod Settled
pub mod Claims
pub mod Search
pub mod Growth
pub mod Homes
pub mod Rounds
mod Tests
