-- ===== src/Store/Extends/Publish.antt =====
-- The statements of ObjectStore::Impl::publish, against the lookups before them.
use ii_file_provider.Base.{
  ℕ, ◌≡◌, refl, Bool, true, not, ◌&&◌, ◌||◌, inl, inr, List, [], ◌∷◌, Option, none, some, Bytes,
  bytes_eq, ◌==◌, ltb, leb, if◌then◌else◌, length, guard, find, update_rows, is_some, Bool-cases,
  bytes_eq_iff, arith,
}
use ii_file_provider.Store.Tables.{
  has_session, Session, ObjectRecord, Chunk, ObjectRow, Revision, PartsRow, RawRow, Store, has_key,
  at_version, parts_at, raw_at, has_hash, constraint, field_too_large,
}
use ii_file_provider.Store.Publish.{
  insert_revision, insert_raw, insert_parts, update_head, publish, parts_allowed, occupies,
  inherited,
}
use ii_file_provider.Store.Checks.{document_limit}
use ii_file_provider.Store.Reads.{context}
use ii_file_provider.Store.Keys.{validation_key}
use ii_file_provider.Store.Extends.{
  ObjectsKept, ObjectsKept-refl, Kept, Kept-refl, Kept-cons, Extends-refl, Grows, Grows-bind,
  Grows-after, revision_at, parts_row_at, raw_row_at, snd,
}

-- A key and a version, compared as the queries compare them, are equal.
at_eq :
    (key k : Bytes) (version v : ℕ)
    → bytes_eq key k && version == v ≡ true
    → (key ≡ k) × (version ≡ v)
at_eq key k version v e = (ground (arith, bytes_eq_iff key k), ground arith)

pub not_found {ℓ} : {A : Type ℓ} (o : Option A) → not (is_some o) ≡ true → o ≡ none
not_found none e = refl
not_found (some a) e = cc

-- A row is new if none stood at its key and version.
module _ {A : Type 0} (key_of : A → Bytes) (version_of : A → ℕ) where
  abbrev row_at : Bytes × ℕ → A → Bool
  row_at k a = bytes_eq (key_of a) k.0 && version_of a == k.1

  fresh-Kept :
      (x : A) (rows : List A)
      → not (is_some (find (row_at (key_of x, version_of x)) rows)) ≡ true
      → Kept row_at rows (x ∷ rows)
  fresh-Kept x rows new = Kept-cons row_at x rows λ k hit.
      let (same_key, same_version) = at_eq (key_of x) k.0 (version_of x) k.1 hit in
      rw (← same_key, ← same_version) (not_found _ new)

insert_revision-Grows : (r : Revision) (s : Store) → Grows (λ t. t) s (insert_revision r s)
unfolding insert_revision
insert_revision-Grows r s = elim (Bool-cases (object && session && new)) [
  | inr refused ↦ rw refused tt
  | inl e ↦ rw e (record {
    objects = ObjectsKept-refl s.objects;
    revisions = fresh-Kept (λ (x : Revision). x.key) (λ x. x.version) r s.revisions (ground arith);
    chunks = Kept-refl has_hash s.chunks;
    parts = Kept-refl parts_row_at s.revision_chunks;
    raws = Kept-refl raw_row_at s.raw_revisions;
    sessions = refl;
    contexts = refl;
    container = refl;
  })
]
  where
    object : Bool
    object = is_some (find (has_key r.key) s.objects) && ltb 0 r.version

    session : Bool
    session = is_some (find (has_session r.session_key) s.sessions)

    new : Bool
    new = not (is_some (find (at_version r.key r.version) s.revisions))

insert_raw-Grows :
    (key : Bytes) (version : ℕ) (document : Bytes) (s : Store)
    → Grows (λ t. t) s (insert_raw key version document s)
unfolding insert_raw
insert_raw-Grows key version [] s = Extends-refl s
insert_raw-Grows key version (c ∷ cs) s =
    Grows-after (λ t. t) s (guard (leb (length (c ∷ cs)) document_limit) field_too_large) _
      λ _. elim (Bool-cases (not (is_some (find (raw_at key version) s.raw_revisions)))) [
        | inr refused ↦ rw refused tt
        | inl e ↦ rw e (record {
          objects = ObjectsKept-refl s.objects;
          revisions = Kept-refl revision_at s.revisions;
          chunks = Kept-refl has_hash s.chunks;
          parts = Kept-refl parts_row_at s.revision_chunks;
          raws = fresh-Kept (λ (x : RawRow). x.key) (λ x. x.version) _ s.raw_revisions e;
          sessions = refl;
          contexts = refl;
          container = refl;
        })
      ]

insert_parts-Grows :
    (key : Bytes) (version : ℕ) (parts : List Chunk) (s : Store)
    → Grows (λ t. t) s (insert_parts key version parts s)
unfolding insert_parts
insert_parts-Grows key version [] s = Extends-refl s
insert_parts-Grows key version (p ∷ ps) s =
    elim (Bool-cases (parts_allowed (p ∷ ps) s.chunks && new)) [
      | inr refused ↦ rw refused tt
      | inl e ↦ rw e (record {
        objects = ObjectsKept-refl s.objects;
        revisions = Kept-refl revision_at s.revisions;
        chunks = Kept-refl has_hash s.chunks;
        parts =
            fresh-Kept (λ (x : PartsRow). x.key) (λ x. x.version) _ s.revision_chunks
              (ground arith);
        raws = Kept-refl raw_row_at s.raw_revisions;
        sessions = refl;
        contexts = refl;
        container = refl;
      })
    ]
  where
    new : Bool
    new = not (is_some (find (parts_at key version) s.revision_chunks))

update_rows-ObjectsKept :
    (key : Bytes) (f : ObjectRow → ObjectRow)
    → ((o : ObjectRow) → (f o).key ≡ o.key)
    → ((o : ObjectRow) → (f o).index_key ≡ o.index_key)
    → (rows : List ObjectRow) → ObjectsKept rows (update_rows (has_key key) f rows)
unfolding update_rows find
update_rows-ObjectsKept key f same_key same_index [] k o e = cc
update_rows-ObjectsKept key f same_key same_index (x ∷ rows) k o e =
    elim (Bool-cases (has_key k x)) [
      | inr miss ↦
          let (o', e', i) =
            update_rows-ObjectsKept key f same_key same_index rows k o (rw miss at e) in
          (o', ground (arith, same_key x), i)
      | inl hit ↦
          let new = if has_key key x then f x else x in
          (new, ground (arith, same_key x), ground (arith, same_index x))
    ]

update_head-Grows : (r : ObjectRecord) (s : Store) → Grows (λ t. t) s (update_head r s)
unfolding update_head
update_head-Grows r s =
    Grows-after (λ t. t) s
      (guard (r.deleted || not (is_some (find (occupies r.key r.path) s.objects))) constraint) _
      λ _. record {
        objects =
            update_rows-ObjectsKept r.key
              (λ o. record o { head = r.version; path = r.path; deleted = r.deleted }) (λ o. refl)
              (λ o. refl) s.objects;
        revisions = Kept-refl revision_at s.revisions;
        chunks = Kept-refl has_hash s.chunks;
        parts = Kept-refl parts_row_at s.revision_chunks;
        raws = Kept-refl raw_row_at s.raw_revisions;
        sessions = refl;
        contexts = refl;
        container = refl;
      }

pub publish-Grows :
    (now : ℕ) (r : ObjectRecord) (session : Session) (parts : List Chunk) (raw : Option Bytes)
    (s : Store)
    → Grows snd s (publish now r session parts raw s)
unfolding publish
publish-Grows now r session parts raw s = Grows-after snd s (context s session.key) _ λ work.
    Grows-after snd s (validation_key _ session s.container work (inherited raw r s)) _ λ key.
      Grows-bind snd s (λ t. t) (insert_revision _ s) _ (insert_revision-Grows _ s)
        λ t.
          Grows-bind snd t (λ t. t) (insert_raw r.key r.version (inherited raw r s) t) _
            (insert_raw-Grows _ _ _ t)
            λ t.
              Grows-bind snd t (λ t. t) (insert_parts r.key r.version parts t) _
                (insert_parts-Grows _ _ _ t)
                λ t.
                  Grows-bind snd t (λ t. t) (update_head _ t) _ (update_head-Grows _ t)
                    λ t. Extends-refl t
