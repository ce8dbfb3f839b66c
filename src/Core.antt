-- ===== src/Core.antt =====
-- The crate of shared values, crates/loreloom-core: revisions, fixed-point numbers, record replay and migrations,
-- validated names.
pub mod Revision
pub mod Fixed
pub mod Record
pub mod Migration
pub mod Names
pub mod Domain
pub mod Codec
pub mod ChangeSet
pub mod Locks
pub mod Examples
