-- ===== src/Hash.antt =====
-- The two SHA-256 implementations: Native/src/Crypto/Sha256.cpp (`Native`) and
-- src/Objects/ObjectHash.cpp (`Object`, the branch for platforms other than Apple's).
pub mod Words
pub mod Stream
pub mod Buffer
pub mod Native
pub mod Object
pub mod Agree
mod Tests
