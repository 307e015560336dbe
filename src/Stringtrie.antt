-- ===== src/Stringtrie.antt =====
-- stringtrie.c and stringtrie.h: a map from strings to data, by a trie with eight-way nodes.
pub mod Chars
pub mod Node
pub mod Ops
pub mod Keys
pub mod Arrays
pub mod Values
pub mod Prune
pub mod Removal
pub mod Map
pub mod Scans
pub mod Live
pub mod Prefix
pub mod Answers
pub mod Upkeep
pub mod Kept
pub mod Lookup
pub mod Dead
pub mod Found
pub mod History
pub mod Visits
mod Tests
