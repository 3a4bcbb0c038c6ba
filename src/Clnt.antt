-- ===== src/Clnt.antt =====
-- The client, package clnt (p/clnt), and the parts of p/chan9 that are its copies.
pub mod Pool
pub mod Rpc
pub mod Calls
pub mod Tags
pub mod Connect
pub mod Readdir
