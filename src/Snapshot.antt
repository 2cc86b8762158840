-- ===== src/Snapshot.antt =====
-- core/src/snapshot.rs: the versioned binary snapshots, their codec and their container.
pub mod Codec
pub mod Container
pub mod Integrity
pub mod Unread
pub mod Lawful
pub mod Fields
pub mod Collections
pub mod Optional
pub mod Regions
pub mod Capped
pub mod Streams
mod Tests
