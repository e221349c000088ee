-- ===== src/Store/Extends/Ingest.antt =====
-- ObjectStore::Impl::ingest and storeChunk, against the lookups before them.
use ii_file_provider.Base.{
  ℕ, ◌+◌, ◌≡◌, refl, not, inl, inr, List, [], ◌∷◌, Option, none, some, Bytes, bytes_eq, leb, length,
  guard, find, Bool-cases, bytes_eq_iff,
}
use ii_file_provider.Store.Tables.{
  chunk_corrupt, chunk_too_large, ObjectRecord, Chunk, ChunkRow, Store, has_hash,
}
use ii_file_provider.Store.Checks.{is_empty}
use ii_file_provider.Store.Reads.{chunk_bytes, int64_max}
use ii_file_provider.Store.Ingest.{
  source_unchanged, Source, Read, Ingested, take_read, place_chunk, take_read, store_chunk,
  ingest_reads, ingest,
}
use ii_file_provider.Store.Extends.{
  ObjectsKept-refl, Kept-refl, Kept-cons, Extends-refl, Grows, Grows-bind, Grows-after, revision_at,
  parts_row_at, raw_row_at, snd,
}
use ii_file_provider.Hash.Object
use ii_file_provider.Store.Keys.{hashed}
use ii_file_provider.Store.Tables.{cancelled, source_changed, not_a_file, too_large}

place_chunk-Grows :
    (s : Store) (digest bytes : Bytes) (o : Option ChunkRow)
    → find (has_hash digest) s.chunks ≡ o
    → Grows snd s (place_chunk s digest bytes o)
unfolding place_chunk
place_chunk-Grows s digest bytes (some row) e =
    Grows-after snd s (guard (bytes_eq row.content bytes) chunk_corrupt) _ λ _. Extends-refl s
place_chunk-Grows s digest bytes none e =
    Grows-after snd s (guard (leb (length bytes) chunk_bytes) chunk_too_large) _ λ _. record {
      objects = ObjectsKept-refl s.objects;
      revisions = Kept-refl revision_at s.revisions;
      chunks = Kept-cons has_hash _ s.chunks (λ h hit. rw (← (bytes_eq_iff digest h).0 hit) e);
      parts = Kept-refl parts_row_at s.revision_chunks;
      raws = Kept-refl raw_row_at s.raw_revisions;
      sessions = refl;
      contexts = refl;
      container = refl;
    }

pub store_chunk-Grows : (s : Store) (bytes : Bytes) → Grows snd s (store_chunk s bytes)
unfolding store_chunk
store_chunk-Grows s bytes =
    Grows-after snd s (hashed (Object.digest bytes)) _
      λ digest. place_chunk-Grows s digest bytes _ refl

abbrev store_of : Ingested → Store
store_of i = i.store

take_read-Grows :
    (size : ℕ) (bytes : Bytes) (i : Ingested) → Grows store_of i.store (take_read size bytes i)
unfolding take_read
take_read-Grows size bytes i =
    Grows-after store_of i.store (hashed (Object.update i.hash bytes)) _ λ hash.
      Grows-after store_of i.store (guard (leb (i.total + length bytes) size) source_changed) _ λ _.
        Grows-bind store_of i.store snd (store_chunk i.store bytes) _
          (store_chunk-Grows i.store bytes) λ stored. Extends-refl stored.1

ingest_reads-Grows :
    (size : ℕ) (reads : List Read) (i : Ingested)
    → Grows store_of i.store (ingest_reads size reads i)
unfolding ingest_reads
ingest_reads-Grows size [] i = Extends-refl i.store
ingest_reads-Grows size (r ∷ rs) i =
    Grows-after store_of i.store (guard (not r.stop) cancelled) _ λ _.
      elim (Bool-cases (is_empty r.bytes)) [
        | inl done ↦ rw done (Extends-refl i.store)
        | inr more ↦ rw more (
            Grows-bind store_of i.store store_of (take_read size r.bytes i) _
              (take_read-Grows size r.bytes i) (ingest_reads-Grows size rs))
      ]

pub ingest-Grows :
    (input : Source) (r : ObjectRecord) (s : Store)
    → Grows (λ (p : List Chunk × ObjectRecord × Store). p.2) s (ingest input r s)
unfolding ingest
ingest-Grows input r s = Grows-after last s (guard input.is_file not_a_file) _ λ _.
    Grows-after last s (guard (leb input.size int64_max) too_large) _ λ _.
      Grows-bind last s store_of (ingest_reads input.size input.reads start) _
        (ingest_reads-Grows input.size input.reads start)
        λ i. Grows-after last i.store (guard (not input.late_stop) cancelled) _ λ _.
          Grows-after last i.store (guard (source_unchanged input i.total) source_changed) _
            λ _. Extends-refl i.store
  where
    last : List Chunk × ObjectRecord × Store → Store
    last p = p.2

    start : Ingested
    start = record { parts = []; hash = Object.initial; total = 0; store = s }
