-- ===== src/Srv.antt =====
-- The file server: package srv (p/srv/srv.go, p/srv/fcall.go, p/srv/respond.go), one connection.
pub mod State
pub mod Frame
pub mod Fids
pub mod Post
pub mod Respond
pub mod Handlers
pub mod Process
pub mod Recv
pub mod Tree
pub mod Fsrv
pub mod Examples
