-- ===== src/Handler.antt =====
-- The thread of a remote: registration in src/service/remote_manager.cpp and the connection loops of
-- src/service/remote_handler.cpp.
pub mod Link
pub mod Register
pub mod Secure
pub mod SecureTwo
pub mod Thread
pub mod Statuses
pub mod Endings
pub mod Lost
pub mod Strangers
mod Tests
