-- ===== src/Tests.antt =====
-- A small world for the client, and the theorems at concrete inputs.
pub mod Changes
pub mod Following
pub mod Json
pub mod Network
pub mod Deleting
pub mod Attributes
pub mod ReadBack
pub mod Moving
pub mod Relocating
pub mod Replaying
pub mod World
pub mod Lru
pub mod Reading
pub mod Writing
pub mod Caching
pub mod Inodes
pub mod Echo
pub mod Storing
pub mod Uploads
pub mod Lively
