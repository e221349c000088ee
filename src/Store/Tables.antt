-- ===== src/Store/Tables.antt =====
-- The types of ObjectStore.h and the SQLite tables of a package (schema 5). A table is the list of
-- its rows, newest first; the chunks of a revision are one row, in the order of their ordinals.
use ii_file_provider.Base.{ℕ, Bool, ◌&&◌, Bytes, bytes_eq, ◌==◌, List}

pub record Metadata : Type 0 where
  pub format : Bytes
  pub payload : Bytes

pub record Author : Type 0 where
  pub origin : Bytes
  pub subject : Bytes
  pub display_name : Bytes
  pub profile : Metadata

pub record Session : Type 0 where
  pub key : Bytes
  pub author : Author
  pub device : Bytes
  pub description : Bytes
  pub started_at : ℕ
  pub ended_at : ℕ

pub record ObjectRecord : Type 0 where
  pub key : Bytes
  pub index_key : ℕ
  pub version : ℕ
  pub path : Bytes
  pub sha256 : Bytes
  pub size : ℕ
  pub author : Author
  pub session_key : Bytes
  pub recorded_at : ℕ
  pub operation : Bytes
  pub deleted : Bool
  pub parent_key : Bytes
  pub validation_key : Bytes
  pub authorship : Metadata
  pub source_stamp : Bytes
  pub schema_version : ℕ

-- `struct Chunk`: a row of `revision_chunks` without its object, version and ordinal.
pub record Chunk : Type 0 where
  pub hash : Bytes
  pub size : ℕ

-- `objects`.
pub record ObjectRow : Type 0 where
  pub index_key : ℕ
  pub key : Bytes
  pub head : ℕ
  pub path : Bytes
  pub deleted : Bool

-- `revisions`, keyed by object and version.
pub record Revision : Type 0 where
  pub key : Bytes
  pub version : ℕ
  pub path : Bytes
  pub sha256 : Bytes
  pub size : ℕ
  pub author_origin : Bytes
  pub author_subject : Bytes
  pub author_name : Bytes
  pub session_key : Bytes
  pub at_ns : ℕ
  pub operation : Bytes
  pub deleted : Bool
  pub parent_key : Bytes
  pub validation_key : Bytes
  pub metadata : Metadata
  pub source_stamp : Bytes
  pub record_format : ℕ

-- `chunks`.
pub record ChunkRow : Type 0 where
  pub sha256 : Bytes
  pub content : Bytes

-- `revision_chunks`.
pub record PartsRow : Type 0 where
  pub key : Bytes
  pub version : ℕ
  pub parts : List Chunk

-- `raw_revisions`.
pub record RawRow : Type 0 where
  pub key : Bytes
  pub version : ℕ
  pub document : Bytes

-- `work_sessions`.
pub record ContextRow : Type 0 where
  pub session_key : Bytes
  pub context : Bytes

-- `object_journal`; the sequence is the number of rows below.
pub record JournalRow : Type 0 where
  pub key : Bytes
  pub version : ℕ
  pub session_key : Bytes

pub record Store : Type 0 where
  pub container : Bytes
  pub sessions : List Session
  pub contexts : List ContextRow
  pub objects : List ObjectRow
  pub revisions : List Revision
  pub chunks : List ChunkRow
  pub revision_chunks : List PartsRow
  pub raw_revisions : List RawRow
  pub journal : List JournalRow

-- The messages of `fail`, and what SQLite and `ObjectHash` throw.
pub data Error : Type 0 where
  invalid_metadata incomplete_document unsupported_format not_an_actor_profile not_a_roster : Error
  path_not_relative path_traversal session_not_found session_closed context_missing : Error
  object_not_found version_conflict chain_corrupt chunk_corrupt chunk_missing chunk_too_large :
      Error
  cancelled source_changed not_a_file too_large raw_immutable move_keeps_authorship : Error
  version_not_found integrity_failed constraint field_too_large hash_too_long invalid_page : Error

abbrev pub has_key : Bytes → ObjectRow → Bool
has_key k o = bytes_eq o.key k

abbrev pub at_version : Bytes → ℕ → Revision → Bool
at_version k v r = bytes_eq r.key k && r.version == v

abbrev pub has_session : Bytes → Session → Bool
has_session k s = bytes_eq s.key k

abbrev pub parts_at : Bytes → ℕ → PartsRow → Bool
parts_at k v p = bytes_eq p.key k && p.version == v

abbrev pub raw_at : Bytes → ℕ → RawRow → Bool
raw_at k v r = bytes_eq r.key k && r.version == v

abbrev pub has_hash : Bytes → ChunkRow → Bool
has_hash h c = bytes_eq c.sha256 h

abbrev pub context_of : Bytes → ContextRow → Bool
context_of k c = bytes_eq c.session_key k
