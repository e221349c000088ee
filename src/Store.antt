-- ===== src/Store.antt =====
-- src/Objects/ObjectStore.cpp: the transactional object package.
pub mod Tables
pub mod Checks
pub mod Keys
pub mod Reads
pub mod Ingest
pub mod Publish
pub mod Validate
pub mod Api
pub mod Extends
pub mod History
pub mod ReadBack
pub mod Appends
pub mod Diff
pub mod Framing
pub mod Content
pub mod Parts
pub mod Imports
mod Tests
