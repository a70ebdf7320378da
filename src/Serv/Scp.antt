-- ===== src/Serv/Scp.antt =====
-- serv/scp.go: the copies by the scp protocol.
pub mod Session
pub mod Protocol
pub mod Messages
pub mod Upload
pub mod Download
