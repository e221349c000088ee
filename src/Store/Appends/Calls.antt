-- ===== src/Store/Appends/Calls.antt =====
-- reviseFile, move and erase of ObjectStore: calls that name an expected version.
use ii_file_provider.Base.{
  ℕ, ◌≡◌, ◌≢◌, refl, sym, ap, ◌∙◌, Bool, List, none, some, Bytes, find, arith, Result, ok, err,
  ◌>>=◌, guard, OnOk, OnOk-after, OnOk-bind, OnOk-both, OnOk-map, ok-inj, subst,
}
use ii_file_provider.Store.Tables.{
  Metadata, Session, ObjectRecord, Chunk, Store, Error, has_session, raw_immutable,
}
use ii_file_provider.Store.Checks.{Checked, is_empty}
use ii_file_provider.Store.Reads.{active_session, raw_document}
use ii_file_provider.Store.Validate.{require}
use ii_file_provider.Store.Ingest.{Source, ingest}
use ii_file_provider.Store.Api.{
  WriteOptions, move_body, erase_body, revise_body, move, erase, revise_file, settle, checked_first,
  Call, revises, moves, erases, perform, document_checked,
}
use ii_file_provider.Store.Content.{Ingests, ingest-Ingests}
use ii_file_provider.Store.Extends.{Extends, Extends-refl}
use ii_file_provider.Store.Extends.Ingest.{ingest-Grows}
use ii_file_provider.Store.Appends.{
  Current, require-Current, active_session-found, Follows, Appended, publish-Appended,
}

-- The record that `ingest` returns is the one it was given, but for the digest and the size.
ingest-Follows :
    (source : Source) (r next : ObjectRecord) (s : Store)
    → Follows r next
    → OnOk (λ (p : List Chunk × ObjectRecord × Store). Follows r p.1) (ingest source next s)
ingest-Follows source r next s f =
    OnOk-map (Ingests source next) (λ p. Follows r p.1) (ingest source next s)
      (λ p x. record {
        key = ap (λ y. y.key) x.shape ∙ f.key;
        index_key = ap (λ y. y.index_key) x.shape ∙ f.index_key;
        version = ap (λ y. y.version) x.shape ∙ f.version;
        parent_key = ap (λ y. y.parent_key) x.shape ∙ f.parent_key;
      })
      (ingest-Ingests source next s)

module _ (s : Store) (key : Bytes) (expected : ℕ) where
  -- Both questions that every change of an object asks first.
  require-Appended :
      (session_key : Bytes) (f : ObjectRecord → Session → Result Error (ObjectRecord × Store))
      → ((r : ObjectRecord) (session : Session)
          → Current s key expected r
          → find (has_session session.key) s.sessions ≡ some session
          → OnOk (Appended s key expected) (f r session))
      → OnOk
          (Appended s key expected)
          (require s key expected >>= λ r. active_session s session_key >>= λ session. f r session)
  require-Appended session_key f h =
      OnOk-bind (Appended s key expected) (Current s key expected) (require s key expected) _
        (require-Current s key expected)
        λ r c.
          OnOk-bind (Appended s key expected)
            (λ (w : Session). find (has_session w.key) s.sessions ≡ some w)
            (active_session s session_key) _ (active_session-found s session_key)
            λ session found. h r session c found

  move_body-Appended :
      (now : ℕ) (path session_key : Bytes) (options : WriteOptions)
      → OnOk (Appended s key expected) (move_body now key path expected session_key options s)
  unfolding move_body
  move_body-Appended now path session_key options =
      require-Appended session_key _ λ r session c found.
        publish-Appended s key expected r c now _ session _ none s (Extends-refl s) found
          (record { key = refl; index_key = refl; version = refl; parent_key = refl })

  erase_body-Appended :
      (now : ℕ) (session_key : Bytes)
      → OnOk (Appended s key expected) (erase_body now key expected session_key s)
  unfolding erase_body
  erase_body-Appended now session_key = require-Appended session_key _ λ r session c found.
      publish-Appended s key expected r c now _ session _ none s (Extends-refl s) found
        (record { key = refl; index_key = refl; version = refl; parent_key = refl })

  revise_body-Appended :
      (document_valid : Metadata → Bool) (now : ℕ) (source : Source) (session_key : Bytes)
      (options : WriteOptions)
      → OnOk
          (Appended s key expected)
          (revise_body document_valid now key source expected session_key options s)
  unfolding revise_body
  revise_body-Appended document_valid now source session_key options =
      require-Appended session_key _ λ r session c found.
        OnOk-after P (guard (is_empty (raw_document s key r.version)) raw_immutable) _ λ _ _.
          OnOk-after P (document_checked document_valid options.authorship) _ λ _ _.
            OnOk-bind P (λ (p : List Chunk × ObjectRecord × Store). Extends s p.2 × Follows r p.1)
              (ingest source _ s) _
              (OnOk-both _ _ (ingest source _ s) (ingest-Grows source _ s) (
                ingest-Follows source r _ s
                  (record { key = refl; index_key = refl; version = refl; parent_key = refl })))
              λ p both.
                publish-Appended s key expected r c now p.1 session p.0 none p.2 both.0 found both.1
    where
      P : ObjectRecord × Store → Type 0
      P = Appended s key expected

module _ {ℓ} {A : Type ℓ} (P : A × Store → Type 0) (s : Store) (a : A) where
  -- What holds of a transaction's result holds of what the client gets and of the tables.
  pub settle-ok :
      (m : Result Error (A × Store)) → OnOk P m → (settle s m).0 ≡ ok a → P (a, (settle s m).1)
  settle-ok (ok (b, t)) h e = subst (λ x. P (x, t)) (ok-inj e) h
  settle-ok (err x) h e = cc

  checked_first-ok :
      (test : Checked) (body : Store → Result Error (A × Store))
      → OnOk P (body s)
      → (checked_first test body s).0 ≡ ok a
      → P (a, (checked_first test body s).1)
  checked_first-ok (ok _) body h e = settle-ok (body s) h e
  checked_first-ok (err x) body h e = cc

-- The call changes the object `key`, which its client has seen at the version `expected`.
pub data Changes (key : Bytes) (expected : ℕ) : Call → Type 0 where
  revising :
      (now : ℕ) (source : Source) (session : Bytes) (options : WriteOptions)
      → Changes key expected (revises now key source expected session options)
  moving :
      (now : ℕ) (path session : Bytes) (options : WriteOptions)
      → Changes key expected (moves now key path expected session options)
  erasing : (now : ℕ) (session : Bytes) → Changes key expected (erases now key expected session)

module _ (document_valid : Metadata → Bool) (s : Store) (key : Bytes) (expected : ℕ) where
  -- A revision, a move or an erasure that returns a record has found the object live at the
  -- version that its client expected; the record has the next version and that head's validation
  -- key as its parent, is the new head, and is what is read as its version.
  pub perform-Appended :
      (c : Call) (r : ObjectRecord)
      → Changes key expected c
      → (perform document_valid c s).0 ≡ ok r
      → Appended s key expected (r, (perform document_valid c s).1)
  unfolding perform revise_file move erase
  perform-Appended _ r (revising now source session options) e =
      checked_first-ok (Appended s key expected) s r _
        (revise_body document_valid now key source expected session options)
        (revise_body-Appended s key expected document_valid now source session options) e
  perform-Appended _ r (moving now path session options) e =
      checked_first-ok (Appended s key expected) s r _
        (move_body now key path expected session options)
        (move_body-Appended s key expected now path session options) e
  perform-Appended _ r (erasing now session) e =
      settle-ok (Appended s key expected) s r (erase_body now key expected session s)
        (erase_body-Appended s key expected now session) e

-- Of two changes of an object that expect the same version, made one after the other, the second
-- returns no record if the first does: no update is lost.
pub perform-lost_update :
    (document_valid : Metadata → Bool) (s : Store) (key : Bytes) (expected : ℕ) (c c' : Call)
    (r r' : ObjectRecord)
    → Changes key expected c
    → Changes key expected c'
    → (perform document_valid c s).0 ≡ ok r
    → (perform document_valid c' (perform document_valid c s).1).0 ≢ ok r'
perform-lost_update document_valid s key expected c c' r r' x x' e e' =
    let s' = (perform document_valid c s).1 in
    let first = perform-Appended document_valid s key expected c r x e in
    let second = perform-Appended document_valid s' key expected c' r' x' e' in
    let same = ap (λ y. y.version) (some-inj (sym first.head ∙ second.current.head)) in
    omega (arith, same, first.follows.version, first.current.version, second.current.version)
  where
    some-inj : {a b : ObjectRecord} → some a ≡ some b → a ≡ b
    some-inj e = cc
