-- ===== src/Database.antt =====
-- The transfer history and the known hosts: src/service/database_manager.cpp.
pub mod Tables
pub mod Session
pub mod History
pub mod Atomic
pub mod Linked
pub mod Integrity
pub mod Queries
pub mod Rows
pub mod Reading
pub mod Partial
pub mod Migration
pub mod Rounds
mod Tests
