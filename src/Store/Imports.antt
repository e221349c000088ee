-- ===== src/Store/Imports.antt =====
-- ObjectStore::importFile and Impl::importFile: the object that an import makes.
use ii_file_provider.Base.{
  ℕ, ◌+◌, ◌<◌, ◌≡◌, refl, sym, ap, ◌∙◌, Bool, false, not, ◌&&◌, inl, inr, Bool-cases, List, [], ◌∷◌,
  some, Bytes, bytes_eq_refl, find, is_some, length, arith, Result, ok, ok-inj, OnOk, OnOk-after,
  OnOk-bind, OnOk-both, OnOk-map, subst,
}
use ii_file_provider.Hash.Object.Digest.{standard_hex}
use ii_file_provider.Store.Tables.{
  Metadata, Session, ObjectRecord, Chunk, ObjectRow, Store, Error, has_key, has_session,
}
use ii_file_provider.Store.Checks.{field, path_valid}
use ii_file_provider.Store.Reads.{get, chunks, active_session}
use ii_file_provider.Store.Ingest.{Source, ingest}
use ii_file_provider.Store.Publish.{publish, occupies}
use ii_file_provider.Store.Api.{
  WriteOptions, authorship_checked, document_checked, insert_object, import_body, import_file,
}
use ii_file_provider.Store.Extends.{Extends}
use ii_file_provider.Store.Extends.Publish.{publish-Grows}
use ii_file_provider.Store.Extends.Ingest.{ingest-Grows}
use ii_file_provider.Store.ReadBack.{Published, publish-Published, Published-get}
use ii_file_provider.Store.Appends.{active_session-found}
use ii_file_provider.Store.Appends.Calls.{settle-ok}
use ii_file_provider.Store.Content.{
  delivered, extract_parts, extract_parts-Extends, Ingests, ingest-Ingests,
}
use ii_file_provider.Store.Parts.{HasParts, publish-HasParts}

-- The new object's head is its first revision, and its content is what was read.
pub record Imported (key path : Bytes) (source : Source) (p : ObjectRecord × Store) : Type 0 where
  pub key_kept : p.0.key ≡ key
  pub path_kept : p.0.path ≡ path
  pub version : p.0.version ≡ 1
  pub parent_key : p.0.parent_key ≡ []
  pub head : get p.1 key 0 ≡ some p.0
  pub size : p.0.size ≡ source.size
  pub digest : p.0.sha256 ≡ standard_hex (delivered source.reads)
  pub content : extract_parts p.1 (chunks p.1 key 1) ≡ ok (delivered source.reads)

module _ (key path : Bytes) (source : Source) (nonempty : 0 < source.size) where
  -- The record that `importFile` fills in before it reads the file.
  record IsNew (r : ObjectRecord) : Type 0 where
    key_kept : r.key ≡ key
    path_kept : r.path ≡ path
    version : r.version ≡ 1
    parent_key : r.parent_key ≡ []

  module _ (now : ℕ) (session : Session) (r : ObjectRecord) (new : IsNew r) (s : Store)
      (o : ObjectRow) (found : find (has_key key) s.objects ≡ some o)
      (index : o.index_key ≡ r.index_key)
      (session_found : find (has_session session.key) s.sessions ≡ some session) where
    published :
        (q : Chunk) (qs : List Chunk) (filled : ObjectRecord) (s' : Store)
        → Extends s s'
        → Ingests source r (q ∷ qs, filled, s')
        → OnOk (Imported key path source) (publish now filled session (q ∷ qs) (some []) s')
    published q qs filled s' grown x =
        OnOk-map
          (λ p.
            Published now filled session s' o' p
            × (HasParts filled.key filled.version q qs p.1 × Extends s' p.1))
          (Imported key path source) done (λ p y. imported p y.0 y.1.0 y.1.1)
          (OnOk-both _ _ done
            (publish-Published now filled session s' o' (q ∷ qs) (some []) (rw filled_key found'))
            (OnOk-both _ _ done (publish-HasParts now filled session q qs (some []) s')
              (publish-Grows now filled session (q ∷ qs) (some []) s')))
      where
        done : Result Error (ObjectRecord × Store)
        done = publish now filled session (q ∷ qs) (some []) s'

        row :
            (o' : ObjectRow) × (find (has_key key) s'.objects ≡ some o')
            × (o'.index_key ≡ o.index_key)
        row = grown.objects key o found

        o' : ObjectRow
        o' = row.0

        found' : find (has_key key) s'.objects ≡ some o'
        found' = row.1

        filled_key : filled.key ≡ key
        filled_key = ap (λ y. y.key) x.shape ∙ new.key_kept

        filled_version : filled.version ≡ 1
        filled_version = ap (λ y. y.version) x.shape ∙ new.version

        filled_index : o'.index_key ≡ filled.index_key
        filled_index = row.2 ∙ index ∙ sym (ap (λ y. y.index_key) x.shape)

        imported :
            (p : ObjectRecord × Store)
            → Published now filled session s' o' p
            → HasParts filled.key filled.version q qs p.1
            → Extends s' p.1
            → Imported key path source p
        imported p y parts later = record {
          key_kept = ap (λ z. z.key) y.result ∙ filled_key;
          path_kept = ap (λ z. z.path) y.result ∙ ap (λ y. y.path) x.shape ∙ new.path_kept;
          version = ap (λ z. z.version) y.result ∙ filled_version;
          parent_key =
              ap (λ z. z.parent_key) y.result ∙ ap (λ y. y.parent_key) x.shape ∙ new.parent_key;
          head = rw (← filled_key) (
              Published-get now filled session s' o' p 0 refl filled_index
                (rw grown.sessions session_found) y);
          size = ap (λ z. z.size) y.result ∙ x.size;
          digest = ap (λ z. z.sha256) y.result ∙ x.digest;
          content =
              subst (λ ps. extract_parts p.1 ps ≡ ok (delivered source.reads))
                (sym (
                  subst (λ v. chunks p.1 key v ≡ q ∷ qs) filled_version
                    (subst (λ k. chunks p.1 k filled.version ≡ q ∷ qs) filled_key parts)))
                (extract_parts-Extends s' p.1 (q ∷ qs) (delivered source.reads) later x.content);
        }

    -- A file that is not empty has parts.
    publish-Imported :
        (parts : List Chunk) (filled : ObjectRecord) (s' : Store)
        → Extends s s'
        → Ingests source r (parts, filled, s')
        → OnOk (Imported key path source) (publish now filled session parts (some []) s')
    unfolding extract_parts
    publish-Imported [] filled s' grown x =
        absurd (omega (arith, nonempty, x.counted, ap length (ok-inj x.content)))
    publish-Imported (q ∷ qs) filled s' grown x = published q qs filled s' grown x

-- The row that `importFile` inserts first.
record Created (key : Bytes) (s : Store) (c : ℕ × Store) : Type 0 where
  object : ObjectRow
  found : find (has_key key) c.1.objects ≡ some object
  index : object.index_key ≡ c.0
  sessions : c.1.sessions ≡ s.sessions

module _ (document_valid : Metadata → Bool) where
  insert_object-Created :
      (key path : Bytes) (s : Store)
      → OnOk (Created key s) (insert_object document_valid key path s)
  unfolding insert_object find
  insert_object-Created key path s = elim (Bool-cases (absent && vacant)) [
    | inr refused ↦ rw refused tt
    | inl e ↦ rw e (record {
      object = record {
        index_key = length s.objects + 1;
        key = key;
        head = 0;
        path = path;
        deleted = false;
      };
      found = rw (bytes_eq_refl key) refl;
      index = refl;
      sessions = refl;
    })
  ]
    where
      absent : Bool
      absent = not (is_some (find (has_key key) s.objects))

      vacant : Bool
      vacant = not (is_some (find (occupies key path) s.objects))

  import_body-Imported :
      (now : ℕ) (key : Bytes) (source : Source) (path : Bytes) (session : Session)
      (options : WriteOptions) (s : Store)
      → 0 < source.size
      → find (has_session session.key) s.sessions ≡ some session
      → OnOk
          (Imported key path source)
          (import_body document_valid now key source path session options s)
  unfolding import_body
  import_body-Imported now key source path session options s nonempty session_found =
      OnOk-after P (authorship_checked document_valid options.authorship) _ λ _ _.
        OnOk-after P (field options.source_stamp 32768 false) _ λ _ _.
          OnOk-after P (path_valid path) _ λ _ _.
            OnOk-after P (document_checked document_valid options.authorship) _ λ _ _.
              OnOk-bind P (Created key s) (insert_object document_valid key path s) _
                (insert_object-Created key path s)
                λ c x.
                  OnOk-bind P
                    (λ (p : List Chunk × ObjectRecord × Store).
                      Extends c.1 p.2 × Ingests source _ p)
                    (ingest source _ c.1) _
                    (OnOk-both _ _ (ingest source _ c.1) (ingest-Grows source _ c.1)
                      (ingest-Ingests source _ c.1))
                    λ p y.
                      publish-Imported key path source nonempty now session _
                        (record {
                          key_kept = refl;
                          path_kept = refl;
                          version = refl;
                          parent_key = refl;
                        })
                        c.1 x.object x.found x.index (rw x.sessions session_found) p.0 p.1 p.2 y.0
                        y.1
    where
      P : ObjectRecord × Store → Type 0
      P = Imported key path source

  -- An import of a file that is not empty, if it returns a record, has made an object with the key
  -- and the path asked for and no parent; its head is this record, at version 1, with the file's
  -- size and the SHA-256 of the bytes read; and the loop of `extract` over the stored parts gives
  -- these bytes back.
  pub import_file-Imported :
      (now : ℕ) (key : Bytes) (source : Source) (path session_key : Bytes) (options : WriteOptions)
      (s : Store) (r : ObjectRecord)
      → 0 < source.size
      → (import_file document_valid now key source path session_key options s).0 ≡ ok r
      → Imported key path source
          (r, (import_file document_valid now key source path session_key options s).1)
  unfolding import_file
  import_file-Imported now key source path session_key options s r nonempty e =
      settle-ok (Imported key path source) s r _
        (OnOk-bind (Imported key path source)
          (λ (w : Session). find (has_session w.key) s.sessions ≡ some w)
          (active_session s session_key) _ (active_session-found s session_key)
          λ session found.
            import_body-Imported now key source path session options s nonempty found)
        e
