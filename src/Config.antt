-- ===== src/Config.antt =====
-- parseconfig.h, and the files that load items, types of ships, ports and planets, and civilizations from
-- a parsed configuration.
pub mod Tree
pub mod Keys
pub mod Lookups
pub mod Items
pub mod Ships
pub mod Ports
pub mod Planets
pub mod Civs
pub mod Index
pub mod Life
pub mod ItemLoading
pub mod Loading
mod Tests
