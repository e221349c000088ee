-- ===== src/Store/Extends.antt =====
-- The lookups of ObjectStore's tables before and after an operation.
pub mod Publish
pub mod Ingest
pub mod Api
use ii_file_provider.Base.{
  OnOk, ℕ, zero, suc, ◌+◌, ◌≡◌, refl, sym, ap, ◌∙◌, Bool, true, false, not, ◌&&◌, ◌||◌, inl, inr,
  List, [], ◌∷◌, ◌++◌, Option, none, some, Bytes, bytes_eq, ◌==◌, ltb, leb, if◌then◌else◌, length,
  Result, ok, err, ◌>>=◌, ◌>>◌, guard, >>=-eq-ok, find, update_rows, is_some, Bool-cases,
  Option-cases, bytes_eq_iff, arith,
}
use ii_file_provider.Store.Tables.{
  has_session, Session, ObjectRecord, Chunk, ObjectRow, Revision, ChunkRow, PartsRow, RawRow, Store,
  Error, has_key, at_version, parts_at, raw_at, has_hash, constraint, field_too_large,
}
use ii_file_provider.Store.Publish.{
  revision_of, insert_revision, insert_raw, insert_parts, update_head, publish, parts_allowed,
  occupies, inherited,
}
use ii_file_provider.Store.Checks.{document_limit}
use ii_file_provider.Store.Reads.{context}
use ii_file_provider.Store.Keys.{validation_key}
use ii_file_provider.Store.Ingest.{
  place_chunk, Source, Read, Ingested, store_chunk, ingest_reads, ingest,
}

-- Every row that `find` gives for a key, it gives still.
abbrev pub Kept {ℓ} : {A : Type ℓ} {K : Type 0} → (K → A → Bool) → List A → List A → Type ℓ
Kept {K} at old new = (k : K) (a : _) → find (at k) old ≡ some a → find (at k) new ≡ some a

module _ {ℓ} {A : Type ℓ} {K : Type 0} (at : K → A → Bool) where
  pub Kept-refl : (rows : List A) → Kept at rows rows
  Kept-refl rows k a e = e

  -- A new row with no old one at its key hides nothing.
  pub Kept-cons :
      (x : A) (rows : List A)
      → ((k : K) → at k x ≡ true → find (at k) rows ≡ none)
      → Kept at rows (x ∷ rows)
  unfolding find
  Kept-cons x rows fresh k a e = elim (Bool-cases (at k x)) [
    | inl hit ↦ absurd (ground (arith, fresh k hit))
    | inr miss ↦ rw miss e
  ]

abbrev pub revision_at : Bytes × ℕ → Revision → Bool
revision_at k = at_version k.0 k.1

abbrev pub parts_row_at : Bytes × ℕ → PartsRow → Bool
parts_row_at k = parts_at k.0 k.1

abbrev pub raw_row_at : Bytes × ℕ → RawRow → Bool
raw_row_at k = raw_at k.0 k.1

-- A row of `objects` may change, but not its key and its index key.
abbrev pub ObjectsKept : List ObjectRow → List ObjectRow → Type 0
ObjectsKept old new =
    (k : Bytes) (o : ObjectRow)
    → find (has_key k) old ≡ some o
    → (o' : ObjectRow) × (find (has_key k) new ≡ some o') × (o'.index_key ≡ o.index_key)

pub ObjectsKept-refl : (rows : List ObjectRow) → ObjectsKept rows rows
ObjectsKept-refl rows k o e = (o, e, refl)

-- Objects, revisions, chunks, the parts and the RAW document of a revision, sessions and their contexts.
pub record Extends (s s' : Store) : Type 0 where
  pub objects : ObjectsKept s.objects s'.objects
  pub revisions : Kept revision_at s.revisions s'.revisions
  pub chunks : Kept has_hash s.chunks s'.chunks
  pub parts : Kept parts_row_at s.revision_chunks s'.revision_chunks
  pub raws : Kept raw_row_at s.raw_revisions s'.raw_revisions
  pub sessions : s'.sessions ≡ s.sessions
  pub contexts : s'.contexts ≡ s.contexts
  pub container : s'.container ≡ s.container

pub Extends-refl : (s : Store) → Extends s s
Extends-refl s = record {
  objects = ObjectsKept-refl s.objects;
  revisions = Kept-refl revision_at s.revisions;
  chunks = Kept-refl has_hash s.chunks;
  parts = Kept-refl parts_row_at s.revision_chunks;
  raws = Kept-refl raw_row_at s.raw_revisions;
  sessions = refl;
  contexts = refl;
  container = refl;
}

pub Extends-trans : {s t u : Store} → Extends s t → Extends t u → Extends s u
Extends-trans x y = record {
  objects = λ k o e.
      let (o', e', i) = x.objects k o e in
      let (o'', e'', j) = y.objects k o' e' in (o'', e'', j ∙ i);
  revisions = λ k a e. y.revisions k a (x.revisions k a e);
  chunks = λ k a e. y.chunks k a (x.chunks k a e);
  parts = λ k a e. y.parts k a (x.parts k a e);
  raws = λ k a e. y.raws k a (x.raws k a e);
  sessions = y.sessions ∙ x.sessions;
  contexts = y.contexts ∙ x.contexts;
  container = y.container ∙ x.container;
}

-- A step that leads to the store `store a` extends the one it started from.
abbrev pub Grows {ℓ} : {A : Type ℓ} → (A → Store) → Store → Result Error A → Type 0
Grows store s r = OnOk (λ a. Extends s (store a)) r

module _ {ℓ κ} {A : Type ℓ} {B : Type κ} (store' : B → Store) (s : Store) where
  -- Behind a step that changes the store.
  pub Grows-bind :
      (store : A → Store) (m : Result Error A) (f : A → Result Error B)
      → Grows store s m
      → ((a : A) → Grows store' (store a) (f a))
      → Grows store' s (m >>= f)
  Grows-bind store (ok a) f g h = extended (f a) (h a)
    where
      extended : (r : Result Error B) → Grows store' (store a) r → Grows store' s r
      extended (ok b) x = Extends-trans g x
      extended (err e) x = tt
  Grows-bind store (err e) f g h = tt

  -- Behind a step that only reads it or checks an argument.
  pub Grows-after :
      (m : Result Error A) (f : A → Result Error B)
      → ((a : A) → Grows store' s (f a))
      → Grows store' s (m >>= f)
  Grows-after (ok a) f h = h a
  Grows-after (err e) f h = tt

-- The store that an operation hands on beside its result.
abbrev pub snd {ℓ} : {A : Type ℓ} → A × Store → Store
snd p = p.1
