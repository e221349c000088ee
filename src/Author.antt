-- ===== src/Author.antt =====
-- Native/src/Core/Authorship.cpp: time stamps, links and the ledger of a file's authors.
pub mod Errors
pub mod Calendar
pub mod Time
pub mod Unicode
pub mod Uri
pub mod Links
pub mod Quote
pub mod Ledger
pub mod Json
pub mod Patterns
pub mod Locale
pub mod Account
pub mod Details
pub mod Profile
pub mod Snapshot
mod Tests
