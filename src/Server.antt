-- ===== src/Server.antt =====
-- The server: server/src/handlers.rs, and the watcher of server/src/main.rs.
pub mod GetFile
pub mod Echo
pub mod Disk
pub mod Handlers
pub mod Socket
pub mod Routes
pub mod Uploads
