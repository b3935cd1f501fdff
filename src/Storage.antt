-- ===== src/Storage.antt =====
-- modules/storage: the metadata of private files, and their review.
pub mod Files
pub mod Service
pub mod Content
pub mod Steps
pub mod Calls
pub mod Download
