-- ===== src/Receiver.antt =====
-- src/service/transfer_manager_reactor.cpp: the class `StartTransferReactor`, which receives the
-- files of a transfer.
pub mod Disk
pub mod Progress
pub mod Files
pub mod Writes
pub mod Stream
pub mod Exchange
pub mod Safety
pub mod Confined
pub mod Ending
pub mod Keeping
mod Tests
