-- ===== src/Remotes.antt =====
-- src/service/remote_manager.cpp and .hpp: the class `RemoteManager`.
pub mod Types
pub mod Naming
pub mod Hosts
pub mod Laws
pub mod Lookup
mod Tests
