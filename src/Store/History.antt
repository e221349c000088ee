-- ===== src/Store/History.antt =====
-- Reading revisions of ObjectStore (`get`, `chunks`) before and after calls.
use ii_file_provider.Base.{
  bytes_eq_iff, find-holds, ◌≢◌, ℕ, ◌<◌, ◌≡◌, refl, sym, ap, ◌∙◌, Bool, inl, inr, List, none, some,
  Bytes, ◌==◌, if◌then◌else◌, find, arith, Option-cases,
}
use ii_file_provider.Store.Tables.{
  Metadata, Session, ObjectRecord, ObjectRow, Revision, Store, has_key, at_version, has_session,
}
use ii_file_provider.Store.Reads.{joined, get, join_object, join_revision, join_session}
use ii_file_provider.Store.Api.{Call, run}
use ii_file_provider.Store.Extends.{Extends}
use ii_file_provider.Store.Extends.Api.{run-Extends}

-- What a query that finds a revision has found; version 0 asks for the head.
pub record Found (s : Store) (key : Bytes) (version : ℕ) (r : ObjectRecord) : Type 0 where
  pub object : ObjectRow
  pub revision : Revision
  pub session : Session
  pub object_found : find (has_key key) s.objects ≡ some object
  pub revision_found :
      find (at_version key (if version == 0 then object.head else version)) s.revisions
      ≡ some revision
  pub session_found : find (has_session revision.session_key) s.sessions ≡ some session
  pub result : r ≡ joined object session revision

module _ (s : Store) (key : Bytes) (version : ℕ) where
  abbrev wanted : ObjectRow → ℕ
  wanted o = if version == 0 then o.head else version

  module _ (o : ObjectRow) (object : find (has_key key) s.objects ≡ some o) where
    get-revision :
        get s key version ≡ join_revision s o (find (at_version key (wanted o)) s.revisions)
    unfolding get join_object
    get-revision = rw object refl

    get-session :
        (v : Revision)
        → find (at_version key (wanted o)) s.revisions ≡ some v
        → get s key version ≡ join_session o v (find (has_session v.session_key) s.sessions)
    unfolding join_revision
    get-session v revision = get-revision ∙ rw revision refl

  pub get-Found : (r : ObjectRecord) → get s key version ≡ some r → Found s key version r
  unfolding get join_object join_revision join_session
  get-Found r e = elim (Option-cases (find (has_key key) s.objects)) [
    | inl missing ↦ absurd (none≢some (sym (get-missing missing) ∙ e))
    | inr (o, object) ↦ elim (Option-cases (find (at_version key (wanted o)) s.revisions)) [
      | inl missing ↦
          absurd (none≢some (sym (get-revision o object ∙ ap (join_revision s o) missing) ∙ e))
      | inr (v, revision) ↦ elim (Option-cases (find (has_session v.session_key) s.sessions)) [
        | inl missing ↦
            absurd (
              none≢some (sym (get-session o object v revision ∙ ap (join_session o v) missing) ∙ e))
        | inr (w, session) ↦ record {
          object = o;
          revision = v;
          session = w;
          object_found = object;
          revision_found = revision;
          session_found = session;
          result =
              some-inj (sym e ∙ get-session o object v revision ∙ ap (join_session o v) session);
        }
      ]
    ]
  ]
    where
      none≢some : {r : ObjectRecord} → none ≢ some r
      none≢some e = ground arith

      some-inj : {r r' : ObjectRecord} → some r ≡ some r' → r ≡ r'
      some-inj e = cc

      get-missing : find (has_key key) s.objects ≡ none → get s key version ≡ none
      get-missing missing = rw missing refl

  pub Found-get : (r : ObjectRecord) → Found s key version r → get s key version ≡ some r
  unfolding join_session
  Found-get r f =
      get-session f.object f.object_found f.revision f.revision_found
      ∙ rw (f.session_found, f.result) refl

pub Found-key :
    (s : Store) (key : Bytes) (version : ℕ) (r : ObjectRecord) → Found s key version r → r.key ≡ key
Found-key s key version r f =
    let v = if version == 0 then f.object.head else version in
    let matched = find-holds (at_version key v) s.revisions f.revision f.revision_found in
    ap (λ x. x.key) f.result ∙ (bytes_eq_iff f.revision.key key).0 (ground arith)

-- A revision asked for by its version is found again where the store has grown.
Extends-Found :
    (s s' : Store) (key : Bytes) (version : ℕ) (r : ObjectRecord)
    → 0 < version
    → Extends s s'
    → Found s key version r
    → Found s' key version r
Extends-Found s s' key version r pos x f =
    let (o, found, index) = x.objects key f.object f.object_found in
    record {
      object = o;
      revision = f.revision;
      session = f.session;
      object_found = found;
      revision_found =
          rw (itself o.head)
            (x.revisions (key, version) f.revision (rw (itself f.object.head) at f.revision_found));
      session_found = rw x.sessions f.session_found;
      result = f.result ∙ index_only f.object o f.session f.revision (sym index);
    }
  where
    itself : (head : ℕ) → (if version == 0 then head else version) ≡ version
    itself head = ground arith

    index_only :
        (o o' : ObjectRow) (w : Session) (v : Revision)
        → o.index_key ≡ o'.index_key
        → joined o w v ≡ joined o' w v
    index_only o o' w v e = rw e refl

module _ (document_valid : Metadata → Bool) (calls : List Call) (s : Store) where
  -- A revision, asked for by its version (from 1), that can be read before any sequence of imports,
  -- revisions, moves and erasures, whether these succeed or throw, is read the same after it.
  pub get-run :
      (key : Bytes) (version : ℕ) (r : ObjectRecord)
      → 0 < version
      → get s key version ≡ some r
      → get (run document_valid calls s) key version ≡ some r
  get-run key version r pos e =
      let s' = run document_valid calls s in
      Found-get s' key version r (
        Extends-Found s s' key version r pos (run-Extends document_valid calls s)
          (get-Found s key version r e))
