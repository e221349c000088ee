-- ===== src/Catalog.antt =====
-- src/Catalog/FileSearchIndex.cpp: the search in a set of files.
pub mod Match
pub mod Index
mod Tests
