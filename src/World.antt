-- ===== src/World.antt =====
-- The crate of the world, crates/loreloom-world: its state and the commands on items, characters,
-- places and transcripts.
pub mod Types
pub mod Containers
pub mod Items
pub mod Places
pub mod Transcripts
pub mod Examples
