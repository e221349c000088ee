-- ===== src/Store/Publish.antt =====
-- ObjectStore::Impl::publish: the statements that add a revision, with the constraints and triggers of
-- the schema.
use ii_file_provider.Base.{
  ℕ, ◌-◌, Bool, true, not, ◌&&◌, ◌||◌, List, [], ◌∷◌, Option, none, some, Bytes, bytes_eq, ltb, leb,
  if◌then◌else◌, length, Result, ok, ◌>>=◌, ◌>>◌, guard, find, update_rows, is_some,
}
use ii_file_provider.Store.Tables.{
  Session, ObjectRecord, Chunk, ObjectRow, Revision, ChunkRow, Store, Error, constraint,
  field_too_large, has_key, at_version, has_session, parts_at, raw_at, has_hash,
}
use ii_file_provider.Store.Checks.{document_limit}
use ii_file_provider.Store.Keys.{validation_key}
use ii_file_provider.Store.Reads.{context, raw_document}

-- The row that `publish` inserts.
abbrev pub revision_of : ObjectRecord → Revision
revision_of r = record {
  key = r.key;
  version = r.version;
  path = r.path;
  sha256 = r.sha256;
  size = r.size;
  author_origin = r.author.origin;
  author_subject = r.author.subject;
  author_name = r.author.display_name;
  session_key = r.session_key;
  at_ns = r.recorded_at;
  operation = r.operation;
  deleted = r.deleted;
  parent_key = r.parent_key;
  validation_key = r.validation_key;
  metadata = r.authorship;
  source_stamp = r.source_stamp;
  record_format = 2;
}

-- INSERT INTO revisions, with its keys and CHECK, and the trigger object_journal_append.
unfoldable pub insert_revision : Revision → Store → Result Error Store
insert_revision r s = do
  guard
      (is_some (find (has_key r.key) s.objects)
        && ltb 0 r.version
        && is_some (find (has_session r.session_key) s.sessions)
        && not (is_some (find (at_version r.key r.version) s.revisions)))
      constraint
  ok (record s {
    revisions = r ∷ s.revisions;
    journal = record { key = r.key; version = r.version; session_key = r.session_key } ∷ s.journal;
  })

-- INSERT INTO raw_revisions, under its primary key, if there is a document.
unfoldable pub insert_raw : Bytes → ℕ → Bytes → Store → Result Error Store
insert_raw key version [] s = ok s
insert_raw key version (c ∷ cs) s = do
  guard (leb (length (c ∷ cs)) document_limit) field_too_large
  guard (not (is_some (find (raw_at key version) s.raw_revisions))) constraint
  ok (record s {
    raw_revisions = record { key = key; version = version; document = c ∷ cs } ∷ s.raw_revisions;
  })

-- Each part names a stored chunk and is not empty.
unfoldable pub parts_allowed : List Chunk → List ChunkRow → Bool
parts_allowed [] rows = true
parts_allowed (p ∷ ps) rows =
    is_some (find (has_hash p.hash) rows) && ltb 0 p.size && parts_allowed ps rows

-- INSERT INTO revision_chunks for every part, under its primary key and references.
unfoldable pub insert_parts : Bytes → ℕ → List Chunk → Store → Result Error Store
insert_parts key version [] s = ok s
insert_parts key version (p ∷ ps) s = do
  guard
      (parts_allowed (p ∷ ps) s.chunks
        && not (is_some (find (parts_at key version) s.revision_chunks)))
      constraint
  ok (record s {
    revision_chunks = record { key = key; version = version; parts = p ∷ ps } ∷ s.revision_chunks;
  })

-- A row of another object that is live at the path.
abbrev pub occupies : Bytes → Bytes → ObjectRow → Bool
occupies key path o = not o.deleted && bytes_eq o.path path && not (bytes_eq o.key key)

-- UPDATE objects, under the unique index live_paths.
unfoldable pub update_head : ObjectRecord → Store → Result Error Store
update_head r s =
    guard (r.deleted || not (is_some (find (occupies r.key r.path) s.objects))) constraint
    >> ok (record s {
      objects =
          update_rows (has_key r.key)
            (λ o. record o { head = r.version; path = r.path; deleted = r.deleted }) s.objects;
    })

abbrev pub inherited : Option Bytes → ObjectRecord → Store → Bytes
inherited (some raw) r s = raw
inherited none r s = if ltb 1 r.version then raw_document s r.key (r.version - 1) else []

-- Impl::publish at the time `now`.
unfoldable pub publish :
    ℕ
    → ObjectRecord
    → Session
    → List Chunk
    → Option Bytes
    → Store
    → Result Error (ObjectRecord × Store)
publish now r session parts raw s = do
  let document = inherited raw r s
  let signed = record r {
    author = session.author;
    session_key = session.key;
    recorded_at = now;
    schema_version = 2;
  }
  work ← context s session.key
  key ← validation_key signed session s.container work document
  let r' = record signed { validation_key = key }
  inserted ← insert_revision (revision_of r') s
  documented ← insert_raw r'.key r'.version document inserted
  placed ← insert_parts r'.key r'.version parts documented
  done ← update_head r' placed
  ok (r', done)
