-- ===== src/Store/Parts.antt =====
-- The chunk rows that `publish` adds for a revision.
use ii_file_provider.Base.{
  ℕ, ◌≡◌, refl, Bool, true, not, ◌&&◌, ◌||◌, inl, inr, Bool-cases, List, ◌∷◌, Option, Bytes,
  bytes_eq_refl, ◌==◌, find, is_some, arith, ok, ◌>>=◌, OnOk, OnOk-after, OnOk-bind,
}
use ii_file_provider.Store.Tables.{Session, ObjectRecord, Chunk, Store, parts_at}
use ii_file_provider.Store.Keys.{validation_key}
use ii_file_provider.Store.Reads.{chunks, context}
use ii_file_provider.Store.Publish.{
  publish, revision_of, insert_revision, insert_raw, insert_parts, parts_allowed, update_head,
  occupies, inherited,
}
use ii_file_provider.Store.ReadBack.{signed}

module _ (key : Bytes) (version : ℕ) (q : Chunk) (qs : List Chunk) where
  abbrev pub HasParts : Store → Type 0
  HasParts s = chunks s key version ≡ q ∷ qs

  insert_parts-HasParts : (s : Store) → OnOk HasParts (insert_parts key version (q ∷ qs) s)
  unfolding insert_parts chunks find
  insert_parts-HasParts s = elim (Bool-cases (parts_allowed (q ∷ qs) s.chunks && new)) [
    | inr refused ↦ rw refused tt
    | inl e ↦ rw (e, bytes_eq_refl key, same_version) refl
  ]
    where
      new : Bool
      new = not (is_some (find (parts_at key version) s.revision_chunks))

      same_version : version == version ≡ true
      same_version = ground arith

-- The parts that `publish` is given, where there are some, are the revision's.
pub publish-HasParts :
    (now : ℕ) (r : ObjectRecord) (session : Session) (q : Chunk) (qs : List Chunk)
    (raw : Option Bytes) (s : Store)
    → OnOk (λ p. HasParts r.key r.version q qs p.1) (publish now r session (q ∷ qs) raw s)
unfolding publish update_head
publish-HasParts now r session q qs raw s = OnOk-after P (context s session.key) _ λ work _.
    OnOk-after P (validation_key _ session s.container work (inherited raw r s)) _ λ key _.
      OnOk-after P (insert_revision (revision_of (signed now r session key)) s) _ λ s₁ _.
        OnOk-after P (insert_raw r.key r.version (inherited raw r s) s₁) _ λ s₂ _.
          OnOk-bind P (HasParts r.key r.version q qs) (insert_parts r.key r.version (q ∷ qs) s₂) _
            (insert_parts-HasParts r.key r.version q qs s₂) λ s₃ x. head_updated key s₃ x
  where
    P : ObjectRecord × Store → Type 0
    P p = HasParts r.key r.version q qs p.1

    head_updated :
        (key : Bytes) (s₃ : Store)
        → HasParts r.key r.version q qs s₃
        → OnOk P (
            update_head (signed now r session key) s₃ >>= λ done.
            ok (signed now r session key, done))
    head_updated key s₃ x =
        elim (Bool-cases (r.deleted || not (is_some (find (occupies r.key r.path) s₃.objects)))) [
          | inr refused ↦ rw refused tt
          | inl e ↦ rw e (unfold chunks in x)
        ]
