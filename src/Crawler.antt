-- ===== src/Crawler.antt =====
-- src/service/file_crawler.cpp.
pub mod Jobs
