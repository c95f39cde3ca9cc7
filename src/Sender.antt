-- ===== src/Sender.antt =====
-- src/service/file_sender.cpp: the class `FileSender`.
pub mod Executable
pub mod Files
pub mod Laws
pub mod Ends
pub mod Tests
