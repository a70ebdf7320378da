-- ===== src/Serv/Sftp.antt =====
-- serv/filehandler.go: the requests of the SFTP server. `Open` has the reads and uploads,
-- `Commands` the requests that change the tree, `Listing` the listings.
pub mod Types
pub mod Open
pub mod Commands
pub mod Listing
