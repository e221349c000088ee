-- ===== src/Files.antt =====
-- Native/src/Core/File.cpp: reading, staged writing and publication of files.
mod Tests
pub mod World
pub mod Paths
pub mod Publish
pub mod Staged
pub mod Reads
pub mod Writes
pub mod Commit
pub mod Outcomes
pub mod Frame
pub mod Staging
pub mod Replace
pub mod Overwrite
pub mod Exclusive
pub mod Content
pub mod Guarded
pub mod Progress
pub mod Committed
pub mod Probe
pub mod Publication
pub mod Transfer
pub mod Save
pub mod Once
