-- ===== src/EndToEnd.antt =====
-- The client against the server's handlers.
pub mod Reading
pub mod Echo
pub mod Permissions
pub mod Storing
pub mod Watching
pub mod Network
pub mod Deleting
pub mod Relocating
pub mod Replaying
pub mod Moving
pub mod Attributes
pub mod ReadBack
