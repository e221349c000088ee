-- ===== src/Store/ReadBack.antt =====
-- ObjectStore::Impl::publish and `get` behind it.
use ii_file_provider.Base.{
  leb, length, ℕ, ◌≡◌, refl, ap, ◌∙◌, Bool, true, not, ◌&&◌, ◌||◌, inl, inr, List, [], ◌∷◌, Option,
  some, Bytes, bytes_eq_refl, ◌==◌, if◌then◌else◌, ltb, find, update_rows, is_some, arith,
  Bool-cases, ok, ◌>>=◌, guard, OnOk, OnOk-after, OnOk-bind,
}
use ii_file_provider.Store.Tables.{
  Session, ObjectRecord, Chunk, ObjectRow, Revision, Store, field_too_large, has_key, at_version,
  has_session, raw_at, parts_at,
}
use ii_file_provider.Store.Keys.{validation_key}
use ii_file_provider.Store.Reads.{get, join_object, join_revision, join_session, context}
use ii_file_provider.Store.Checks.{document_limit}
use ii_file_provider.Store.Publish.{
  parts_allowed, revision_of, insert_revision, insert_raw, insert_parts, update_head, occupies,
  inherited, publish,
}

-- The tables that `get` joins are the same.
record SameJoin (s s' : Store) : Type 0 where
  objects : s'.objects ≡ s.objects
  revisions : s'.revisions ≡ s.revisions
  sessions : s'.sessions ≡ s.sessions

SameJoin-refl : (s : Store) → SameJoin s s
SameJoin-refl s = record { objects = refl; revisions = refl; sessions = refl }

-- The revision is the newest row, and nothing else that `get` joins has changed.
record Inserted (v : Revision) (s s' : Store) : Type 0 where
  objects : s'.objects ≡ s.objects
  revisions : s'.revisions ≡ v ∷ s.revisions
  sessions : s'.sessions ≡ s.sessions

insert_revision-Inserted : (v : Revision) (s : Store) → OnOk (Inserted v s) (insert_revision v s)
unfolding insert_revision
insert_revision-Inserted v s = elim (Bool-cases (object && session && new)) [
  | inr refused ↦ rw refused tt
  | inl e ↦ rw e (record { objects = refl; revisions = refl; sessions = refl })
]
  where
    object : Bool
    object = is_some (find (has_key v.key) s.objects) && ltb 0 v.version

    session : Bool
    session = is_some (find (has_session v.session_key) s.sessions)

    new : Bool
    new = not (is_some (find (at_version v.key v.version) s.revisions))

insert_raw-SameJoin :
    (key : Bytes) (version : ℕ) (document : Bytes) (s : Store)
    → OnOk (SameJoin s) (insert_raw key version document s)
unfolding insert_raw
insert_raw-SameJoin key version [] s = SameJoin-refl s
insert_raw-SameJoin key version (c ∷ cs) s =
    OnOk-after (SameJoin s) (guard (leb (length (c ∷ cs)) document_limit) field_too_large) _ λ _ _.
      elim (Bool-cases (not (is_some (find (raw_at key version) s.raw_revisions)))) [
        | inr refused ↦ rw refused tt
        | inl e ↦ rw e (record { objects = refl; revisions = refl; sessions = refl })
      ]

insert_parts-SameJoin :
    (key : Bytes) (version : ℕ) (parts : List Chunk) (s : Store)
    → OnOk (SameJoin s) (insert_parts key version parts s)
unfolding insert_parts
insert_parts-SameJoin key version [] s = SameJoin-refl s
insert_parts-SameJoin key version (p ∷ ps) s =
    elim (Bool-cases (parts_allowed (p ∷ ps) s.chunks && new)) [
      | inr refused ↦ rw refused tt
      | inl e ↦ rw e (record { objects = refl; revisions = refl; sessions = refl })
    ]
  where
    new : Bool
    new = not (is_some (find (parts_at key version) s.revision_chunks))

-- The row that `update_head` leaves for the key.
find-update_rows :
    (key : Bytes) (f : ObjectRow → ObjectRow)
    → ((o : ObjectRow) → (f o).key ≡ o.key)
    → (rows : List ObjectRow) (o : ObjectRow) → find (has_key key) rows ≡ some o
    → find (has_key key) (update_rows (has_key key) f rows) ≡ some (f o)
unfolding update_rows find
find-update_rows key f same [] o e = cc
find-update_rows key f same (x ∷ rows) o e = elim (Bool-cases (has_key key x)) [
  | inl hit ↦
      let found : some x ≡ some o = rw hit at e in
      let still : has_key key (f x) ≡ true = rw (same x) hit in
      rw (hit, still) (ap (λ y. some (f y)) (some-inj found))
  | inr miss ↦ rw (miss, miss) (find-update_rows key f same rows o (rw miss at e))
]
  where
    some-inj : {a b : ObjectRow} → some a ≡ some b → a ≡ b
    some-inj e = cc

-- The record that `publish` returns, whatever its validation key.
abbrev pub signed : ℕ → ObjectRecord → Session → Bytes → ObjectRecord
signed now r session key = record r {
  author = session.author;
  session_key = session.key;
  recorded_at = now;
  validation_key = key;
  schema_version = 2;
}

module _ (now : ℕ) (r : ObjectRecord) (session : Session) (s : Store) (o : ObjectRow) where
  -- What has become of the record `r` of the object `o`.
  pub record Published (p : ObjectRecord × Store) : Type 0 where
    pub key : Bytes
    pub result : p.0 ≡ signed now r session key
    pub object_found :
        find (has_key r.key) p.1.objects
        ≡ some (record o { head = r.version; path = r.path; deleted = r.deleted })
    pub revisions : p.1.revisions ≡ revision_of (signed now r session key) ∷ s.revisions
    pub sessions : p.1.sessions ≡ s.sessions

  pub publish-Published :
      (parts : List Chunk) (raw : Option Bytes)
      → find (has_key r.key) s.objects ≡ some o
      → OnOk Published (publish now r session parts raw s)
  unfolding publish update_head
  publish-Published parts raw found = OnOk-after Published (context s session.key) _ λ work _.
      OnOk-after Published (validation_key _ session s.container work document) _ λ key _.
        let r' = signed now r session key in
        OnOk-bind Published (Inserted (revision_of r') s) (insert_revision (revision_of r') s) _
          (insert_revision-Inserted (revision_of r') s)
          λ s₁ inserted.
            OnOk-bind Published (SameJoin s₁) (insert_raw r.key r.version document s₁) _
              (insert_raw-SameJoin r.key r.version document s₁)
              λ s₂ documented.
                OnOk-bind Published (SameJoin s₂) (insert_parts r.key r.version parts s₂) _
                  (insert_parts-SameJoin r.key r.version parts s₂)
                  λ s₃ placed. head_updated key s₁ s₂ s₃ inserted documented placed
    where
      document : Bytes
      document = inherited raw r s

      head_updated :
          (key : Bytes) (s₁ s₂ s₃ : Store)
          → Inserted (revision_of (signed now r session key)) s s₁
          → SameJoin s₁ s₂
          → SameJoin s₂ s₃
          → OnOk Published (
              update_head (signed now r session key) s₃ >>= λ done.
              ok (signed now r session key, done))
      head_updated key s₁ s₂ s₃ inserted documented placed =
          elim (Bool-cases (r.deleted || not (is_some (find (occupies r.key r.path) s₃.objects)))) [
            | inr refused ↦ rw refused tt
            | inl e ↦ rw e (record {
              key = key;
              result = refl;
              object_found =
                  find-update_rows r.key _ (λ x. refl) s₃.objects o
                    (rw (placed.objects, documented.objects, inserted.objects) found);
              revisions = placed.revisions ∙ documented.revisions ∙ inserted.revisions;
              sessions = placed.sessions ∙ documented.sessions ∙ inserted.sessions;
            })
          ]

  -- The published revision is what the head and its own version are read as.
  pub Published-get :
      (p : ObjectRecord × Store) (version : ℕ)
      → (if version == 0 then r.version else version) ≡ r.version
      → o.index_key ≡ r.index_key
      → find (has_session session.key) s.sessions ≡ some session
      → Published p
      → get p.1 r.key version ≡ some p.0
  unfolding get join_object join_revision join_session find
  Published-get p version wanted index found x =
      rw
        (
          x.object_found,
          wanted,
          x.revisions,
          bytes_eq_refl r.key,
          same_version,
          x.sessions,
          found,
          x.result,
          index,
        )
        refl
    where
      same_version : r.version == r.version ≡ true
      same_version = ground arith
