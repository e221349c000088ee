-- ===== src/Store/Extends/Api.antt =====
-- importFile, reviseFile, move and erase of ObjectStore, against the lookups before them.
use ii_file_provider.Base.{
  false, Bool-cases, inl, inr, bytes_eq_iff, arith, ℕ, ◌≡◌, refl, ◌∷◌, Bool, not, ◌&&◌, List, [],
  none, some, Bytes, Result, ok, err, guard, find, is_some,
}
use ii_file_provider.Store.Tables.{
  Metadata, Session, ObjectRecord, Chunk, Store, Error, raw_immutable, has_key, has_hash,
}
use ii_file_provider.Store.Checks.{Checked, field, is_empty, path_valid}
use ii_file_provider.Store.Reads.{raw_document, active_session}
use ii_file_provider.Store.Validate.{require}
use ii_file_provider.Store.Ingest.{Source, ingest}
use ii_file_provider.Store.Publish.{occupies}
use ii_file_provider.Store.Api.{
  settle, checked_first, WriteOptions, authorship_checked, document_checked, insert_object,
  import_body, import_file, revise_body, revise_file, move_body, move, erase_body, erase, Call,
  imports, revises, moves, erases, perform, run,
}
use ii_file_provider.Store.Extends.{
  Kept-refl, Kept-cons, Extends, Extends-refl, Extends-trans, Grows, Grows-bind, Grows-after,
  revision_at, parts_row_at, raw_row_at, snd,
}
use ii_file_provider.Store.Extends.Publish.{publish-Grows, not_found}
use ii_file_provider.Store.Extends.Ingest.{ingest-Grows}

module _ {ℓ} {A : Type ℓ} (s : Store) where
  settle-Extends : (r : Result Error (A × Store)) → Grows (λ p. p.1) s r → Extends s (settle s r).1
  settle-Extends (ok p) x = x
  settle-Extends (err e) x = Extends-refl s

  checked_first-Extends :
      (test : Checked) (body : Store → Result Error (A × Store))
      → Grows (λ p. p.1) s (body s)
      → Extends s (checked_first test body s).1
  checked_first-Extends (ok _) body g = settle-Extends (body s) g
  checked_first-Extends (err e) body g = Extends-refl s

move_body-Grows :
    (now : ℕ) (key path : Bytes) (expected : ℕ) (session_key : Bytes) (options : WriteOptions)
    (s : Store)
    → Grows snd s (move_body now key path expected session_key options s)
unfolding move_body
move_body-Grows now key path expected session_key options s =
    Grows-after snd s (require s key expected) _ λ r.
      Grows-after snd s (active_session s session_key) _
        λ session. publish-Grows now _ session _ _ s

erase_body-Grows :
    (now : ℕ) (key : Bytes) (expected : ℕ) (session_key : Bytes) (s : Store)
    → Grows snd s (erase_body now key expected session_key s)
unfolding erase_body
erase_body-Grows now key expected session_key s = Grows-after snd s (require s key expected) _ λ r.
    Grows-after snd s (active_session s session_key) _ λ session. publish-Grows now _ session _ _ s

-- Moving an object keeps everything that was stored.
pub move-Extends :
    (now : ℕ) (key path : Bytes) (expected : ℕ) (session_key : Bytes) (options : WriteOptions)
    (s : Store)
    → Extends s (move now key path expected session_key options s).1
unfolding move
move-Extends now key path expected session_key options s =
    checked_first-Extends s _ (move_body now key path expected session_key options)
      (move_body-Grows now key path expected session_key options s)

pub erase-Extends :
    (now : ℕ) (key : Bytes) (expected : ℕ) (session_key : Bytes) (s : Store)
    → Extends s (erase now key expected session_key s).1
unfolding erase
erase-Extends now key expected session_key s =
    settle-Extends s _ (erase_body-Grows now key expected session_key s)

module _ (document_valid : Metadata → Bool) where
  revise_body-Grows :
      (now : ℕ) (key : Bytes) (source : Source) (expected : ℕ) (session_key : Bytes)
      (options : WriteOptions) (s : Store)
      → Grows snd s (revise_body document_valid now key source expected session_key options s)
  unfolding revise_body
  revise_body-Grows now key source expected session_key options s =
      Grows-after snd s (require s key expected) _ λ r.
        Grows-after snd s (active_session s session_key) _ λ session.
          Grows-after snd s (guard (is_empty (raw_document s key r.version)) raw_immutable) _ λ _.
            Grows-after snd s (document_checked document_valid options.authorship) _ λ _.
              Grows-bind snd s (λ (p : List Chunk × ObjectRecord × Store). p.2) (ingest source _ s)
                _ (ingest-Grows source _ s) λ p. publish-Grows now p.1 session p.0 none p.2

  insert_object-Grows :
      (key path : Bytes) (s : Store) → Grows snd s (insert_object document_valid key path s)
  unfolding insert_object
  insert_object-Grows key path s = elim (Bool-cases (new && vacant)) [
    | inr refused ↦ rw refused tt
    | inl e ↦
        let none_there : find (has_key key) s.objects ≡ none =
          not_found (find (has_key key) s.objects) (ground (arith, e)) in
        rw e (record {
          objects = λ k o found. (
            o,
            Kept-cons has_key _ s.objects (λ k' hit. rw (← (bytes_eq_iff key k').0 hit) none_there)
                k o found,
            refl,
          );
          revisions = Kept-refl revision_at s.revisions;
          chunks = Kept-refl has_hash s.chunks;
          parts = Kept-refl parts_row_at s.revision_chunks;
          raws = Kept-refl raw_row_at s.raw_revisions;
          sessions = refl;
          contexts = refl;
          container = refl;
        })
  ]
    where
      new : Bool
      new = not (is_some (find (has_key key) s.objects))

      vacant : Bool
      vacant = not (is_some (find (occupies key path) s.objects))

  import_body-Grows :
      (now : ℕ) (key : Bytes) (source : Source) (path : Bytes) (session : Session)
      (options : WriteOptions) (s : Store)
      → Grows snd s (import_body document_valid now key source path session options s)
  unfolding import_body
  import_body-Grows now key source path session options s =
      Grows-after snd s (authorship_checked document_valid options.authorship) _ λ _.
        Grows-after snd s (field options.source_stamp 32768 false) _ λ _.
          Grows-after snd s (path_valid path) _ λ _.
            Grows-after snd s (document_checked document_valid options.authorship) _ λ _.
              Grows-bind snd s snd (insert_object document_valid key path s) _
                (insert_object-Grows key path s)
                λ c.
                  Grows-bind snd c.1 (λ (p : List Chunk × ObjectRecord × Store). p.2)
                    (ingest source _ c.1) _ (ingest-Grows source _ c.1)
                    λ p. publish-Grows now p.1 session p.0 (some []) p.2

  import_file-Extends :
      (now : ℕ) (key : Bytes) (source : Source) (path session_key : Bytes) (options : WriteOptions)
      (s : Store)
      → Extends s (import_file document_valid now key source path session_key options s).1
  unfolding import_file
  import_file-Extends now key source path session_key options s = settle-Extends s _ (
      Grows-after snd s (active_session s session_key) _
        λ session. import_body-Grows now key source path session options s)

  revise_file-Extends :
      (now : ℕ) (key : Bytes) (source : Source) (expected : ℕ) (session_key : Bytes)
      (options : WriteOptions) (s : Store)
      → Extends s (revise_file document_valid now key source expected session_key options s).1
  unfolding revise_file
  revise_file-Extends now key source expected session_key options s =
      checked_first-Extends s _
        (revise_body document_valid now key source expected session_key options)
        (revise_body-Grows now key source expected session_key options s)

  -- Every call keeps what was stored, whether it returns or throws.
  perform-Extends : (c : Call) (s : Store) → Extends s (perform document_valid c s).1
  unfolding perform
  perform-Extends (imports now key source path session options) s =
      import_file-Extends now key source path session options s
  perform-Extends (revises now key source expected session options) s =
      revise_file-Extends now key source expected session options s
  perform-Extends (moves now key path expected session options) s =
      move-Extends now key path expected session options s
  perform-Extends (erases now key expected session) s = erase-Extends now key expected session s

  -- Any sequence of imports, revisions, moves and erasures, whether these succeed or throw, keeps
  -- every object with its index key, every revision, every chunk, the parts and the RAW document of
  -- every revision that has them, the sessions with their contexts, and the container key.
  pub run-Extends : (calls : List Call) (s : Store) → Extends s (run document_valid calls s)
  unfolding run
  run-Extends [] s = Extends-refl s
  run-Extends (c ∷ cs) s =
      Extends-trans (perform-Extends c s) (run-Extends cs (perform document_valid c s).1)
