-- ===== src/Lib.antt =====
-- sshserv: a verification library of the SFTP/SCP server of this repository.
--
-- The program serves files to users over SSH. A data provider keeps the users: their credentials,
-- permissions, limits and used quota. The server asks it at each login and charges it for each
-- upload; the REST API adds, changes and deletes users; a loop of cmd deletes the users whose date
-- has passed. The server keeps its open connections, active transfers and running quota scans in
-- variables that one mutex guards.
--
-- Files, and the code they model (paths from the repository's root):
--   Utils                     utils/utils.go: IsStringInSlice, IsStringPrefixInSlice
--   Dataprovider/User         dataprovider/user.go: the record `User` and its derived values
--   Dataprovider/Errors       dataprovider/dataprovider.go: the kinds of error
--   Dataprovider/Validate     dataprovider/dataprovider.go: validateUser
--   Dataprovider/Password     dataprovider/dataprovider.go: checkUserAndPass, checkUserAndPubKey,
--                             comparePbkdf2PasswordAndHash
--   Dataprovider/Bolt         dataprovider/bolt.go: Store has the libraries and the state, Provider
--                             has one function for each method of BoltProvider; Linked, Lookup,
--                             Listing, Id and Abstract have what is proved of them
--   Dataprovider/Facade       dataprovider/dataprovider.go: the interface Provider, AddUser,
--                             UpdateUser, DeleteUser, UpdateUserQuota, GetUsedQuota
--   Dataprovider/Expiry       cmd/serve.go: check_user_expire_once
--   Serv/Registry             serv/sftpd.go: the shared variables and the functions that lock them,
--                             with the records of serv/filehandler.go and serv/transfer.go; its
--                             child Stats also has GetRelativePath of dataprovider/user.go
--   Serv/Lister               serv/lister.go: ListAt
--   Serv/Transfer             serv/transfer.go: ReadAt, WriteAt, handleThrottle, and Close in the child
--                             of its name
--   Serv/Quota                serv/filehandler.go: hasSpace
--   Serv/Os                   what serv/ uses of the operating system: a parameter
--   Serv/Env                  the configuration and the state that a request may change, with
--                             executeAction of serv/sftpd.go, and ScanDirContents and
--                             SetPathPermissions of utils/utils.go
--   Serv/Paths                serv/filehandler.go: buildPath, isSubDir, findNonexistentDirs,
--                             findFirstExistingDir, createMissingDirs
--   Serv/Sftp                 serv/filehandler.go: Open has Fileread and Filewrite, Commands has
--                             Filecmd, Listing has Filelist
--   Serv/Login                serv/server.go: loginUser, the checks of credentials,
--                             parseCommandPayload
--   Serv/Shell                serv/shell_linux.go: handleSSHRequest and what it calls; iterChans of
--                             serv/server.go
--   Serv/Scp                  serv/scp.go: Session has the state and the monad of a command, Protocol
--                             the messages over the channel, Messages their texts, Upload and
--                             Download the two directions
--   Api                       api/user.go, api/quota.go, and handleCloseConnection of api/router.go
--   Prelude                   shared types and lemmas: Go's strings as lists of bytes, int64 with
--                             its wrap-around, base64, the "%d" of fmt, slices and maps
--   Tests                     lawful instances of the libraries, and the theorems' witnesses
--
-- How code becomes definitions. A function that changes a store takes the state and returns the
-- next one beside its result. A transaction of bbolt is a function from the state to a result; the
-- state changes only if the function and the commit succeed. A Go error beside a value is a
-- `Result`, a lone error an `Option`. The clock is an argument: an instant, or a function from the
-- turn of a loop to an instant; an scp command counts its readings of the clock. A handler of an
-- SFTP request maps the server's state to its answer and the next state; a handler of an scp command
-- also threads the channel, and stops at its first error. A panic is an outcome of its own. A
-- transfer is allocated at the next address, which also names its open file. A function that locks the mutex is one step of the shared state. A
-- pointer is an address.
--
-- Parameters, with their documented laws where the proofs need them: bbolt's buckets
-- (`KeyValue`), encoding/json at users (`Json`), argon2id, bcrypt, pbkdf2 and the parsing of
-- authorized keys (`Hashing`, `Checking`), the operating system with Go's packages os and
-- path/filepath (`Os`), and the channel of golang.org/x/crypto/ssh (`Channel`). A user is stored without loss only if its texts are valid
-- UTF-8, which is a hypothesis of the theorems that store one.
--
-- Bounds and fuel. Quotas and dates are int64 with the wrap-around written out; ids come from a
-- sequence that is assumed not to be exhausted. Fuel: for the loop over the pages in
-- `check_user_expire_once`, one page and one more for every thirty entries is enough; for the climb
-- of `findNonexistentDirs`, the length of the path, since a missing directory's parent is shorter;
-- for the loops of an scp upload, more than the reads that the client's channel still gives; a
-- download takes one unit for each level of directories and for each read of a file. A map's
-- `range` visits an association list in its order, which Go leaves open.
--
-- Not modelled: the listener and the network loop of serv/server.go with its host keys, the
-- bytes that a process and its channel exchange, serv/shell_windows.go and the sockets of
-- serv/portforwarding.go, which are input and output; the routing of the REST API and its test client, the SQL providers,
-- configuration, logging, the command line and its client, the HDFS handler; and the copies of
-- pkg/sftp (sftp/) and of the HDFS client (hdfs/), which are other projects. The log is left out of
-- every function.
pub mod Prelude
pub mod Utils
pub mod Dataprovider
pub mod Serv
pub mod Api
pub mod Tests
