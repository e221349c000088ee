-- ===== src/Store/Content.antt =====
-- The loop of ObjectStore::extract over the parts that `ingest` stores.
use ii_file_provider.Base.{
  ℕ, ◌+◌, ◌≡◌, refl, sym, ap, ◌∙◌, true, not, inl, inr, List, [], ◌∷◌, ◌++◌, append_assoc,
  append-nil, Option, none, some, Bytes, bytes_eq, bytes_eq_iff, leb, if◌then◌else◌, find, length,
  length-append, arith, Bool-cases, Option-cases, Result, ok, ◌>>=◌, guard, or_fail, >>=-eq-ok,
  OnOk, OnOk-after, OnOk-bind, OnOk-both, OnOk-guard, OnOk-ok, ok-inj, bytes_eq_refl,
}
use ii_file_provider.Hash.Object
use ii_file_provider.Hash.Object.{ObjectHash}
use ii_file_provider.Hash.Object.Digest.{Took, initial-Took, finalize-hash_state, standard_hex}
use ii_file_provider.Hash.Words.{words_of}
use ii_file_provider.Store.Tables.{
  Chunk, ChunkRow, ObjectRecord, Store, Error, has_hash, chunk_missing, chunk_corrupt,
  chunk_too_large, source_changed, cancelled, not_a_file, too_large,
}
use ii_file_provider.Store.Checks.{is_empty}
use ii_file_provider.Store.Keys.{hashed}
use ii_file_provider.Store.Framing.{hashed-update-Took}
use ii_file_provider.Store.Reads.{chunk_bytes, int64_max}
use ii_file_provider.Store.Ingest.{
  Source, Read, Ingested, place_chunk, store_chunk, take_read, ingest_reads, source_unchanged,
  ingest,
}
use ii_file_provider.Store.Extends.{Extends}
use ii_file_provider.Store.Extends.Ingest.{store_chunk-Grows}

-- The loop of ObjectStore::extract, which writes the content of one part after the other.
unfoldable pub extract_parts : Store → List Chunk → Result Error Bytes
extract_parts s [] = ok []
extract_parts s (p ∷ ps) = do
  row ← or_fail (find (has_hash p.hash) s.chunks) chunk_missing
  rest ← extract_parts s ps
  ok (row.content ++ rest)

-- The bytes that the reading loop gets: it ends at a read of no bytes.
abbrev pub delivered : List Read → Bytes
delivered [] = []
delivered (r ∷ rs) = if is_empty r.bytes then [] else r.bytes ++ delivered rs

-- A part whose chunk is stored with this content.
record Stored (bytes : Bytes) (p : Chunk × Store) : Type 0 where
  row : ChunkRow
  found : find (has_hash p.0.hash) p.1.chunks ≡ some row
  content : row.content ≡ bytes

place_chunk-Stored :
    (s : Store) (digest bytes : Bytes) (o : Option ChunkRow)
    → find (has_hash digest) s.chunks ≡ o
    → OnOk (Stored bytes) (place_chunk s digest bytes o)
unfolding place_chunk
place_chunk-Stored s digest bytes (some row) e =
    OnOk-guard (Stored bytes) (bytes_eq row.content bytes) chunk_corrupt _
      λ same. record { row = row; found = e; content = (bytes_eq_iff row.content bytes).0 same }
place_chunk-Stored s digest bytes none e =
    OnOk-guard (Stored bytes) (leb (length bytes) chunk_bytes) chunk_too_large _ λ _. record {
      row = record { sha256 = digest; content = bytes };
      found = unfold find in rw (bytes_eq_refl digest) refl;
      content = refl;
    }

store_chunk-Stored : (s : Store) (bytes : Bytes) → OnOk (Stored bytes) (store_chunk s bytes)
unfolding store_chunk
store_chunk-Stored s bytes =
    OnOk-after (Stored bytes) (hashed (Object.digest bytes)) _
      λ digest _. place_chunk-Stored s digest bytes (find (has_hash digest) s.chunks) refl

pub extract_parts-Extends :
    (s s' : Store) (ps : List Chunk) (bytes : Bytes)
    → Extends s s'
    → extract_parts s ps ≡ ok bytes
    → extract_parts s' ps ≡ ok bytes
unfolding extract_parts
extract_parts-Extends s s' [] bytes x e = e
extract_parts-Extends s s' (p ∷ ps) bytes x e =
    elim (Option-cases (find (has_hash p.hash) s.chunks)) [
      | inl missing ↦ absurd (ground (arith, e, missing))
      | inr (row, found) ↦
          let (rest, later, whole) =
            >>=-eq-ok (extract_parts s ps) (λ rest. ok (row.content ++ rest)) (rw found at e) in
          rw (x.chunks p.hash row found, extract_parts-Extends s s' ps rest x later) whole
    ]

extract_parts-snoc :
    (s : Store) (ps : List Chunk) (p : Chunk) (bytes : Bytes) (row : ChunkRow)
    → extract_parts s ps ≡ ok bytes
    → find (has_hash p.hash) s.chunks ≡ some row
    → extract_parts s (ps ++ p ∷ []) ≡ ok (bytes ++ row.content)
unfolding extract_parts
extract_parts-snoc s [] p bytes row e found = rw (found, append-nil, ← ok-inj e) refl
extract_parts-snoc s (q ∷ ps) p bytes row e found =
    elim (Option-cases (find (has_hash q.hash) s.chunks)) [
      | inl missing ↦ absurd (ground (arith, e, missing))
      | inr (first, at_first) ↦
          let (rest, later, whole) =
            >>=-eq-ok (extract_parts s ps) (λ rest. ok (first.content ++ rest))
              (rw at_first at e) in
          rw
            (at_first, extract_parts-snoc s ps p rest row later found, ← ok-inj whole, append_assoc)
            refl
    ]

-- What the loop has gathered is what it has been delivered.
record Holds (i : Ingested) (bytes : Bytes) : Type 0 where
  content : extract_parts i.store i.parts ≡ ok bytes
  hash : Took bytes i.hash
  total : i.total ≡ length bytes

take_read-Holds :
    (size : ℕ) (read bytes : Bytes) (i : Ingested)
    → Holds i bytes
    → OnOk (λ next. Holds next (bytes ++ read)) (take_read size read i)
unfolding take_read
take_read-Holds size read bytes i x =
    OnOk-bind P (Took (bytes ++ read)) (hashed (Object.update i.hash read)) _
      (hashed-update-Took bytes read i.hash x.hash)
      λ hash took. OnOk-after P (guard (leb (i.total + length read) size) source_changed) _ λ _ _.
        OnOk-bind P (λ (p : Chunk × Store). Extends i.store p.1 × Stored read p)
          (store_chunk i.store read) _
          (OnOk-both _ _ (store_chunk i.store read) (store_chunk-Grows i.store read)
            (store_chunk-Stored i.store read))
          λ p both. next hash took p both.0 both.1
  where
    P : Ingested → Type 0
    P i' = Holds i' (bytes ++ read)

    next :
        (hash : ObjectHash)
        → Took (bytes ++ read) hash
        → (p : Chunk × Store) → Extends i.store p.1
        → Stored read p
        → P (record {
          parts = i.parts ++ p.0 ∷ [];
          hash = hash;
          total = i.total + length read;
          store = p.1;
        })
    next hash took p grown stored = record {
      content =
          extract_parts-snoc p.1 i.parts p.0 bytes stored.row
            (extract_parts-Extends i.store p.1 i.parts bytes grown x.content) stored.found
          ∙ ap (λ end. ok (bytes ++ end)) stored.content;
      hash = took;
      total = omega (arith, x.total, length-append bytes read);
    }

ingest_reads-Holds :
    (size : ℕ) (reads : List Read) (bytes : Bytes) (i : Ingested)
    → Holds i bytes
    → OnOk (λ last. Holds last (bytes ++ delivered reads)) (ingest_reads size reads i)
unfolding ingest_reads
ingest_reads-Holds size [] bytes i x = rw append-nil x
ingest_reads-Holds size (r ∷ rs) bytes i x = OnOk-after _ (guard (not r.stop) cancelled) _ λ _ _.
    elim (Bool-cases (is_empty r.bytes)) [
      | inl done ↦ rw (done, append-nil) x
      | inr more ↦
          rw (more, ← append_assoc)
            (OnOk-bind _ (λ next. Holds next (bytes ++ r.bytes)) (take_read size r.bytes i) _
              (take_read-Holds size r.bytes bytes i x)
              λ next y. ingest_reads-Holds size rs (bytes ++ r.bytes) next y)
    ]

-- What a successful ingestion for the record `r` returns.
pub record Ingests (input : Source) (r : ObjectRecord) (p : List Chunk × ObjectRecord × Store)
    : Type 0 where
  pub shape : p.1 ≡ record r { sha256 = p.1.sha256; size = p.1.size }
  pub counted : length (delivered input.reads) ≡ input.size
  pub size : p.1.size ≡ input.size
  pub digest : p.1.sha256 ≡ standard_hex (delivered input.reads)
  pub content : extract_parts p.2 p.0 ≡ ok (delivered input.reads)

pub ingest-Ingests :
    (input : Source) (r : ObjectRecord) (s : Store) → OnOk (Ingests input r) (ingest input r s)
unfolding ingest
ingest-Ingests input r s = OnOk-after P (guard input.is_file not_a_file) _ λ _ _.
    OnOk-after P (guard (leb input.size int64_max) too_large) _ λ _ _.
      OnOk-bind P (λ i. Holds i (delivered input.reads)) (ingest_reads input.size input.reads start)
        _ (ingest_reads-Holds input.size input.reads [] start start-Holds)
        λ i x. OnOk-after P (guard (not input.late_stop) cancelled) _ λ _ _.
          OnOk-guard P (source_unchanged input i.total) source_changed _ λ same. gathered i x same
  where
    P : List Chunk × ObjectRecord × Store → Type 0
    P = Ingests input r

    start : Ingested
    start = record { parts = []; hash = Object.initial; total = 0; store = s }

    start-Holds : Holds start []
    start-Holds = record {
      content = unfold extract_parts in refl;
      hash = initial-Took;
      total = refl;
    }

    gathered :
        (i : Ingested)
        → Holds i (delivered input.reads)
        → source_unchanged input i.total ≡ true
        → P (i.parts, record r { sha256 = Object.finish i.hash; size = i.total }, i.store)
    gathered i x same =
        let counted : i.total ≡ input.size = ground arith in
        record {
          shape = refl;
          counted = sym x.total ∙ counted;
          size = counted;
          digest =
              unfold Object.finish in
              ap (λ w. Object.hex (words_of w))
                (finalize-hash_state (delivered input.reads) i.hash x.hash);
          content = x.content;
        }

-- When `ingest` of a file returns, the bytes that the reading loop got are as many as the file has;
-- the returned record has their number as its size and their SHA-256 as its digest; and the loop of
-- `extract` over the returned parts, in the tables that `ingest` leaves, gives them back.
pub ingest-extract_parts :
    (input : Source) (r r' : ObjectRecord) (s s' : Store) (parts : List Chunk)
    → ingest input r s ≡ ok (parts, r', s')
    → (length (delivered input.reads) ≡ input.size)
      × (r'.size ≡ input.size)
      × (r'.sha256 ≡ standard_hex (delivered input.reads))
      × (extract_parts s' parts ≡ ok (delivered input.reads))
ingest-extract_parts input r r' s s' parts e =
    let x =
      OnOk-ok (Ingests input r) (ingest input r s) (parts, r', s') (ingest-Ingests input r s) e in
    (x.counted, x.size, x.digest, x.content)
