-- ===== src/Transfers.antt =====
-- src/service/transfer_manager.cpp and .hpp: the class `TransferManager`.
pub mod Types
pub mod State
pub mod Settings
pub mod Finish
pub mod Control
pub mod Register
pub mod Outgoing
pub mod Lookup
pub mod Records
pub mod Pausing
pub mod Starting
pub mod Ending
pub mod Crawled
pub mod Invariant
