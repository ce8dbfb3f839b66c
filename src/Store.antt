-- ===== src/Store.antt =====
-- The crate of durable saves, crates/loreloom-store: commit requests, their rows, and the store.
pub mod Types
pub mod Request
pub mod Laws
pub mod Checksums
pub mod Rows
pub mod Save
pub mod Adopt
pub mod Examples
