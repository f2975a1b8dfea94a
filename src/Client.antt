-- ===== src/Client.antt =====
-- The FUSE client: client/src.
pub mod Attributes
pub mod Config
pub mod Platform
pub mod Cache
pub mod State
pub mod Api
pub mod Attr
pub mod Read
pub mod Write
pub mod Create
pub mod Delete
pub mod Rename
pub mod Xattr
pub mod Inodes
pub mod Lively
pub mod Watch
pub mod Start
