-- ===== src/Store/Ingest.antt =====
-- ObjectStore::Impl: storeChunk and the ingestion of a source file.
use ii_file_provider.Base.{
  ℕ, ◌+◌, Bool, not, ◌&&◌, List, [], ◌∷◌, ◌++◌, Option, none, some, Bytes, bytes_eq, ◌==◌, leb,
  if◌then◌else◌, length, Result, ok, ◌>>=◌, ◌>>◌, guard, find,
}
use ii_file_provider.Hash.Object
use ii_file_provider.Hash.Object.{ObjectHash}
use ii_file_provider.Store.Tables.{
  ObjectRecord, Chunk, ChunkRow, Store, Error, chunk_corrupt, chunk_too_large, cancelled,
  source_changed, not_a_file, too_large, has_hash,
}
use ii_file_provider.Store.Checks.{is_empty}
use ii_file_provider.Store.Keys.{hashed}
use ii_file_provider.Store.Reads.{chunk_bytes, int64_max}

-- What `storeChunk` does for a digest that is there, or is not.
unfoldable pub place_chunk : Store → Bytes → Bytes → Option ChunkRow → Result Error (Chunk × Store)
place_chunk s digest bytes (some row) =
    guard (bytes_eq row.content bytes) chunk_corrupt
    >> ok (record { hash = digest; size = length bytes }, s)
place_chunk s digest bytes none =
    guard (leb (length bytes) chunk_bytes) chunk_too_large
    >> ok (
      record { hash = digest; size = length bytes },
      record s { chunks = record { sha256 = digest; content = bytes } ∷ s.chunks },
    )

-- Impl::storeChunk.
unfoldable pub store_chunk : Store → Bytes → Result Error (Chunk × Store)
store_chunk s bytes = do
  digest ← hashed (Object.digest bytes)
  place_chunk s digest bytes (find (has_hash digest) s.chunks)

-- One round of the reading loop: what `stop_requested` answered, and what `read` delivered.
pub record Read : Type 0 where
  pub stop : Bool
  pub bytes : Bytes

-- A source file, as the loop meets it. The stream ends with the list.
pub record Source : Type 0 where
  pub is_file : Bool
  pub size : ℕ
  pub modified : ℕ
  pub reads : List Read
  pub late_stop : Bool
  pub bad : Bool
  pub direct_after : Bool
  pub size_after : ℕ
  pub modified_after : ℕ

-- What the loop has gathered.
pub record Ingested : Type 0 where
  pub parts : List Chunk
  pub hash : ObjectHash
  pub total : ℕ
  pub store : Store

-- What a round does with the bytes that it has read.
unfoldable pub take_read : ℕ → Bytes → Ingested → Result Error Ingested
take_read size bytes i = do
  hash ← hashed (Object.update i.hash bytes)
  guard (leb (i.total + length bytes) size) source_changed
  stored ← store_chunk i.store bytes
  ok (record {
    parts = i.parts ++ stored.0 ∷ [];
    hash = hash;
    total = i.total + length bytes;
    store = stored.1;
  })

-- `while(stream) { … }`.
unfoldable pub ingest_reads : ℕ → List Read → Ingested → Result Error Ingested
ingest_reads size [] i = ok i
ingest_reads size (r ∷ rs) i =
    let rest = take_read size r.bytes i >>= λ next. ingest_reads size rs next in
    guard (not r.stop) cancelled >> (if is_empty r.bytes then ok i else rest)

-- The comparison behind the loop.
abbrev pub source_unchanged : Source → ℕ → Bool
source_unchanged input total =
    not input.bad
    && total == input.size
    && input.direct_after
    && input.size_after == input.size
    && input.modified_after == input.modified

-- Impl::ingest of a path.
unfoldable pub ingest :
    Source → ObjectRecord → Store → Result Error (List Chunk × ObjectRecord × Store)
ingest input r s = do
  guard input.is_file not_a_file
  guard (leb input.size int64_max) too_large
  i ←
      ingest_reads input.size input.reads
        (record { parts = []; hash = Object.initial; total = 0; store = s })
  guard (not input.late_stop) cancelled
  guard (source_unchanged input i.total) source_changed
  ok (i.parts, record r { sha256 = Object.finish i.hash; size = i.total }, i.store)
