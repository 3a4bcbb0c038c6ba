-- ===== src/Srv/Handlers.antt =====
-- The handlers of p/srv/fcall.go. Each ends by answering the request or by calling the file server's
-- method for it, which answers later.
pub mod Session
pub mod Files
pub mod Guards
pub mod Limits
pub mod Faults
