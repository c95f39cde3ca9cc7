-- ===== src/Lib.antt =====
-- A model of Winpinator, a Windows program that exchanges files with Warpinator hosts of the local
-- network. Other hosts are found by mDNS, registered, and then talk over gRPC; files are offered,
-- accepted and sent as streams of chunks.
--
-- The parts and their files:
-- - Transfers/: the class `TransferManager` (src/service/transfer_manager.cpp, .hpp). Types has the
--   enums and structs of transfer_types.hpp and database_types.hpp, State the manager's fields and
--   look-ups, Settings its constructor and setters, Register `registerTransfer`, Control the answers,
--   pauses and stops, Finish `doFinishTransfer`, `failOp` and `failAll`, Outgoing the sender's side
--   with the crawler. Each C++ method is the function of the same name in snake case. Lookup, Records,
--   Pausing, Starting, Ending, Crawled and Invariant/ hold what is proved of them.
-- - Remotes/: the host list of `RemoteManager` (src/service/remote_manager.cpp) and the address pairs
--   of src/zeroconf/mdns_types.hpp. Naming strips service names, Hosts has the operations.
-- - Rpc/: the handlers of `WarpServiceImpl` (src/service/warp_service_impl.cpp): Requests the transfer
--   calls, Avatar the stream of the user's picture, Duplex the connection checks.
-- - Service/: the events of `WinpinatorService::serviceMain` (src/service/winpinator_service.cpp), the
--   calls of other hosts and of the user interface, the ends of the sending threads and the
--   writes of the receiving ones, as steps of one system. Main has the start of the service and the loop
--   that restarts or ends it, and Turns what is proved of them.
-- - Sender/: the class `FileSender` (src/service/file_sender.cpp): Executable has
--   `isFileExecutable`, Files the loops over the files of an operation and the chunks of a file. Laws
--   and Ends hold what is proved of them.
-- - Receiver/: the class `StartTransferReactor` (src/service/transfer_manager_reactor.cpp). Disk is the
--   file system that it writes to, a parameter with its laws; Progress has what it writes into the
--   manager, Files what it writes to the disk. Exchange joins it with the sender; Stream, Writes,
--   Safety, Confined, Ending and Keeping hold what is proved of it.
-- - Auth/: the class `AuthManager` (src/service/auth_manager.cpp). State has its fields, its
--   settings and its keyfile, Certs the certificates of other hosts and the box in which the own one is
--   sent. Exchange and Keyfile hold what is proved of them.
-- - Handler/: the class `RemoteHandler` (src/service/remote_handler.cpp) and the threads of
--   `RemoteManager`. Register has both registrations, Secure and SecureTwo the secure loops of the two
--   protocol versions, Thread the whole thread of a remote, and Link the remote with the log of what its
--   listener is told. Statuses, Endings, Lost and Strangers hold what is proved of them.
-- - Discovery/: src/zeroconf. Client has what `MdnsClient` (mdns_client.cpp) makes of records, Responder
--   the records and answers of `MdnsService` (mdns_service.cpp), Sockets the sockets that both open.
--   Details, Keeping, Unresolved, Announcing, Repeats, Exchange, Meeting, Goodbye and Opening hold what is proved of them.
-- - Database/: the class `DatabaseManager` (src/service/database_manager.cpp). Tables has the rows, Session
--   the transactions and the result codes, History the functions that write, Queries those that read,
--   Migration the updates of the schema. Atomic, Linked, Integrity, Rows, Reading, Partial and Rounds hold what
--   is proved of them.
-- - Crawler/Jobs: the job table of src/service/file_crawler.cpp. Permissions: the conversions of
--   src/service/unix_permissions.cpp.
-- - Prelude/: Boolean tests, lists, texts and integers that the parts share.
--
-- How the code corresponds: a method is a function from the state to the state, and `none` is a null
-- pointer that the code would dereference. The mutexes have no model; each operation, which the code
-- runs under the manager's lock, is one step, and threads are orders of steps. Notifications, database
-- rows, toasts and calls of other hosts are effects in a log, newest first. The system, wxWidgets, gRPC
-- and the other managers are read through the record `Env`, new for each call; `atoi` is a parameter.
-- Texts are lists of bytes. Counts and times are natural numbers; sizes, which the code sets to -1, are
-- integers. Port conversions to `uint16_t` wrap around.
--
-- Bounds and fuel: `failAll` repeats while the list is not empty, with the number of listed transfers as
-- fuel; `WaitingForDuplex` tries at most twenty times; the avatar loop has its fuel as an argument, and
-- one more than the length of the picture is enough; the loop over the chunks of a file has one more
-- than the length of the file. `enforceIntegrity` has its rounds as an argument, since it need not end.
-- The tries of a remote's thread and the packets that a client receives are lists, one entry for each.
-- The retries around `GetAdaptersAddresses` count down as in the code.
--
-- Parameters: SQLite's result codes, whether a statement that fails rolls its transaction back as well,
-- and the order of rows that no ORDER BY gives, where the rows are those that the SQL names; libsodium's
-- boxes; the answers of Windows to the search for adapters; the sockets; the file system of a receiver, with
-- which paths are the same file and how much of each write is stored; the answers of other hosts to calls.
--
-- Not modelled: a `wxFile::Read` of the sender that fails or stops short before the end of the file, queries
-- of SQLite that fail, texts of 2 ^ 31 bytes and more, whose lengths the code keeps in an `int`,
-- the waiting of a paused sender, the walk of the crawler, the making of the own
-- certificate, the registration servers, the network polling thread, the receive loops around `select`,
-- the observers' lists, zlib (its `compress` is a parameter of the sender), the
-- vendored mdns.h, the generated protocol code, the windows of src/gui, the installer.
pub mod Prelude
pub mod Permissions
pub mod Crawler
pub mod Remotes
pub mod Transfers
pub mod Rpc
pub mod Sender
pub mod Receiver
pub mod Auth
pub mod Handler
pub mod Discovery
pub mod Database
pub mod Service
