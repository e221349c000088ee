-- ===== src/Store/Api.antt =====
-- The public operations of ObjectStore. Time and the random part of a key are arguments.
use ii_file_provider.Base.{
  ℕ, ◌+◌, Bool, true, false, not, ◌&&◌, ◌||◌, List, [], ◌∷◌, Option, none, some, Bytes, bytes_eq,
  if◌then◌else◌, length, Result, ok, err, ◌>>=◌, ◌>>◌, guard, find, is_some, codes,
}
use ii_file_provider.Store.Tables.{
  Metadata, Session, ObjectRecord, ObjectRow, Store, Error, cancelled, raw_immutable,
  move_keeps_authorship, constraint, unsupported_format, has_key,
}
use ii_file_provider.Store.Checks.{Checked, field, authorship_valid, path_valid, is_empty}
use ii_file_provider.Store.Reads.{raw_document, active_session, get, chunks}
use ii_file_provider.Store.Ingest.{Source, ingest}
use ii_file_provider.Store.Publish.{occupies, publish}
use ii_file_provider.Store.Validate.{require}

-- `Transaction`: an exception before `commit` rolls the tables back to `before`.
abbrev pub settle {ℓ} : {A : Type ℓ} → Store → Result Error (A × Store) → Result Error A × Store
settle before (ok (a, after)) = (ok a, after)
settle before (err e) = (err e, before)

abbrev pub transaction {ℓ} :
    {A : Type ℓ} → (Store → Result Error (A × Store)) → Store → Result Error A × Store
transaction body s = settle s (body s)

-- What is checked before the transaction begins.
abbrev pub checked_first {ℓ} :
    {A : Type ℓ} → Checked → (Store → Result Error (A × Store)) → Store → Result Error A × Store
checked_first (ok _) body s = transaction body s
checked_first (err e) body s = (err e, s)

-- ObjectWriteOptions; `stop` is what `cancellation` answers before the transaction.
pub record WriteOptions : Type 0 where
  pub authorship : Option Metadata
  pub source_stamp : Bytes
  pub stop : Bool

-- What SQLite's JSON functions say of a document that validateDocument asks them about.
module _ (document_valid : Metadata → Bool) where
  unfoldable pub authorship_checked : Option Metadata → Checked
  authorship_checked none = ok tt
  authorship_checked (some document) = authorship_valid document

  unfoldable pub document_checked : Option Metadata → Checked
  document_checked none = ok tt
  document_checked (some document) =
      guard (is_empty document.payload || document_valid document) unsupported_format

  abbrev pub or_kept : Option Metadata → Metadata → Metadata
  or_kept none kept = kept
  or_kept (some document) kept = document

  -- INSERT INTO objects, under the unique keys; AUTOINCREMENT counts the rows.
  unfoldable pub insert_object : Bytes → Bytes → Store → Result Error (ℕ × Store)
  insert_object key path s = do
    guard
        (not (is_some (find (has_key key) s.objects))
          && not (is_some (find (occupies key path) s.objects)))
        constraint
    let index_key = length s.objects + 1
    let row : ObjectRow = record {
      index_key = index_key;
      key = key;
      head = 0;
      path = path;
      deleted = false;
    }
    ok (index_key, record s { objects = row ∷ s.objects })

  -- Impl::importFile without a prepared source or a RAW document.
  unfoldable pub import_body :
      ℕ
      → Bytes
      → Source
      → Bytes
      → Session
      → WriteOptions
      → Store
      → Result Error (ObjectRecord × Store)
  import_body now key source path session options s = do
    authorship_checked options.authorship
    field options.source_stamp 32768 false
    path_valid path
    document_checked options.authorship
    created ← insert_object key path s
    let r : ObjectRecord = record {
      key = key;
      index_key = created.0;
      version = 1;
      path = path;
      sha256 = [];
      size = 0;
      author = session.author;
      session_key = [];
      recorded_at = 0;
      operation = codes "import";
      deleted = false;
      parent_key = [];
      validation_key = [];
      authorship = or_kept options.authorship (record { format = []; payload = [] });
      source_stamp = options.source_stamp;
      schema_version = 2;
    }
    (parts, filled, stored) ← ingest source r created.1
    publish now filled session parts (some []) stored

  -- ObjectStore::importFile.
  unfoldable pub import_file :
      ℕ → Bytes → Source → Bytes → Bytes → WriteOptions → Store → Result Error ObjectRecord × Store
  import_file now key source path session_key options = transaction λ s. do
    session ← active_session s session_key
    import_body now key source path session options s

  unfoldable pub revise_body :
      ℕ → Bytes → Source → ℕ → Bytes → WriteOptions → Store → Result Error (ObjectRecord × Store)
  revise_body now key source expected session_key options s = do
    r ← require s key expected
    session ← active_session s session_key
    guard (is_empty (raw_document s key r.version)) raw_immutable
    document_checked options.authorship
    let next = record r {
      authorship = or_kept options.authorship r.authorship;
      source_stamp = options.source_stamp;
      parent_key = r.validation_key;
      version = r.version + 1;
      operation = codes "revise";
    }
    (parts, filled, stored) ← ingest source next s
    publish now filled session parts none stored

  -- ObjectStore::reviseFile.
  unfoldable pub revise_file :
      ℕ → Bytes → Source → ℕ → Bytes → WriteOptions → Store → Result Error ObjectRecord × Store
  revise_file now key source expected session_key options =
      checked_first
        (authorship_checked options.authorship >> field options.source_stamp 32768 false)
        (revise_body now key source expected session_key options)

unfoldable pub move_body :
    ℕ → Bytes → Bytes → ℕ → Bytes → WriteOptions → Store → Result Error (ObjectRecord × Store)
move_body now key path expected session_key options s = do
  r ← require s key expected
  session ← active_session s session_key
  let next = record r {
    source_stamp = (if is_empty options.source_stamp then r.source_stamp else options.source_stamp);
    path = path;
    parent_key = r.validation_key;
    version = r.version + 1;
    operation = codes "move";
  }
  publish now next session (chunks s key r.version) none s

-- ObjectStore::move.
unfoldable pub move :
    ℕ → Bytes → Bytes → ℕ → Bytes → WriteOptions → Store → Result Error ObjectRecord × Store
move now key path expected session_key options =
    checked_first
      (field options.source_stamp 32768 false
        >> guard (not options.stop) cancelled
        >> guard (not (is_some options.authorship)) move_keeps_authorship
        >> path_valid path)
      (move_body now key path expected session_key options)

unfoldable pub erase_body : ℕ → Bytes → ℕ → Bytes → Store → Result Error (ObjectRecord × Store)
erase_body now key expected session_key s = do
  r ← require s key expected
  session ← active_session s session_key
  let next = record r {
    parent_key = r.validation_key;
    version = r.version + 1;
    operation = codes "erase";
    deleted = true;
  }
  publish now next session [] none s

-- ObjectStore::erase.
unfoldable pub erase : ℕ → Bytes → ℕ → Bytes → Store → Result Error ObjectRecord × Store
erase now key expected session_key = transaction (erase_body now key expected session_key)

-- ObjectStore::lookupPath.
unfoldable pub lookup_path : Bytes → Store → Result Error (Option ObjectRecord)
lookup_path path s = do
  path_valid path
  ok (elim (find (λ (o : ObjectRow). bytes_eq o.path path && not o.deleted) s.objects) [
    | none ↦ none
    | some o ↦ get s o.key 0
  ])

-- A mutating call with its arguments.
pub data Call : Type 0 where
  imports : ℕ → Bytes → Source → Bytes → Bytes → WriteOptions → Call
  revises : ℕ → Bytes → Source → ℕ → Bytes → WriteOptions → Call
  moves : ℕ → Bytes → Bytes → ℕ → Bytes → WriteOptions → Call
  erases : ℕ → Bytes → ℕ → Bytes → Call

module _ (document_valid : Metadata → Bool) where
  unfoldable pub perform : Call → Store → Result Error ObjectRecord × Store
  perform (imports now key source path session options) =
      import_file document_valid now key source path session options
  perform (revises now key source expected session options) =
      revise_file document_valid now key source expected session options
  perform (moves now key path expected session options) = move now key path expected session options
  perform (erases now key expected session) = erase now key expected session

  -- The calls of all clients, in the order in which the mutex lets them in.
  unfoldable pub run : List Call → Store → Store
  run [] s = s
  run (c ∷ cs) s = run cs (perform c s).1
