-- ===== src/Auth.antt =====
-- The identity of this host and the certificates of the others: src/service/auth_manager.cpp.
pub mod State
pub mod Certs
pub mod Exchange
pub mod Keyfile
mod Tests
