-- ===== src/Serv.antt =====
-- serv/: the state that the server shares between its connections.
pub mod Registry
pub mod Lister
pub mod Transfer
pub mod Quota
pub mod Os
pub mod Env
pub mod Paths
pub mod Sftp
pub mod Login
pub mod Scp
pub mod Shell
