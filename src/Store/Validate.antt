-- ===== src/Store/Validate.antt =====
-- ObjectStore::Impl::validate and require.
use ii_file_provider.Base.{
  ℕ, zero, suc, ◌+◌, ◌/◌, ◌%◌, Bool, true, false, not, ◌&&◌, ◌||◌, List, [], ◌∷◌, none, some, Bytes,
  bytes_eq, ◌==◌, ltb, leb, if◌then◌else◌, length, Result, ok, ◌>>=◌, ◌>>◌, guard, or_fail, find,
}
use ii_file_provider.Hash.Object
use ii_file_provider.Hash.Object.{ObjectHash}
use ii_file_provider.Store.Tables.{
  Author, ObjectRecord, Chunk, Store, Error, object_not_found, version_conflict, chain_corrupt,
  has_hash,
}
use ii_file_provider.Store.Checks.{is_empty}
use ii_file_provider.Store.Keys.{hashed, validation_key}
use ii_file_provider.Store.Reads.{
  chunk_bytes, int64_max, context, raw_document, get_session, get, chunks,
}

-- The default comparison of two authors.
unfoldable pub author_eq : Author → Author → Bool
author_eq x y =
    bytes_eq x.origin y.origin
    && bytes_eq x.subject y.subject
    && bytes_eq x.display_name y.display_name
    && bytes_eq x.profile.format y.profile.format
    && bytes_eq x.profile.payload y.profile.payload

-- The record's format is known, and format 1 has no documents.
abbrev pub format_allowed : ObjectRecord → Bool
format_allowed r =
    (r.schema_version == 1 || r.schema_version == 2)
    && not (
        r.schema_version == 1
        && not (
            is_empty r.author.profile.payload
            && is_empty r.authorship.payload
            && is_empty r.source_stamp))

-- What one round of the loop asks of a revision that is there.
unfoldable pub link_valid : Store → Bytes → ℕ → Bytes → ObjectRecord → Result Error Bool
link_valid s key v previous r = get_session s r.session_key >>= λ session.
    if (format_allowed r
      && r.version == v
      && bytes_eq r.parent_key previous
      && author_eq r.author session.author)
    then (do
      work ← context s session.key
      expected ← validation_key r session s.container work (raw_document s key v)
      ok (bytes_eq expected r.validation_key))
    else ok false

-- The loop over `n` versions from `v`.
unfoldable pub links_valid : Store → Bytes → ℕ → ℕ → Bytes → Result Error Bool
links_valid s key zero v previous = ok true
links_valid s key (suc n) v previous = elim (get s key v) [
  | none ↦ ok false
  | some r ↦ link_valid s key v previous r >>= λ valid. elim valid [
    | true ↦ links_valid s key n (v + 1) r.validation_key
    | false ↦ ok false
  ]
]

-- One round of the loop over the chunks; `last` tells the last one.
abbrev pub chunk_allowed : Bool → Chunk → Bytes → Bool
chunk_allowed last part content =
    (last || part.size == chunk_bytes)
    && length content == part.size
    && not (is_empty content)
    && leb (length content) chunk_bytes

abbrev pub is_last : List Chunk → Bool
is_last [] = true
is_last (p ∷ ps) = false

-- The loop over the chunks, and the comparison behind it.
unfoldable pub parts_valid : Store → List Chunk → ObjectHash → ℕ → Bytes → ℕ → Result Error Bool
parts_valid s [] hash total sha256 size = ok (total == size && bytes_eq (Object.finish hash) sha256)
parts_valid s (p ∷ ps) hash total sha256 size = elim (find (has_hash p.hash) s.chunks) [
  | none ↦ ok false
  | some row ↦ do
    digest ← hashed (Object.digest row.content)
    (elim (chunk_allowed (is_last ps) p row.content && bytes_eq digest p.hash) [
      | false ↦ ok false
      | true ↦ do
        next ← hashed (Object.update hash row.content)
        parts_valid s ps next (total + length row.content) sha256 size
    ])
]

unfoldable pub payload_valid : Store → ObjectRecord → Result Error Bool
payload_valid s r =
    let parts = chunks s r.key r.version in
    if r.deleted
    then ok (is_last parts)
    else if length parts == r.size / chunk_bytes + (if r.size % chunk_bytes == 0 then 0 else 1)
    then parts_valid s parts Object.initial 0 r.sha256 r.size
    else ok false

-- Impl::validate. The dereference of `get` follows a chain that has found the revision.
unfoldable pub validate : Store → Bytes → ℕ → Bool → Result Error Bool
validate s key version payload =
    if version == 0 || ltb int64_max version
    then ok false
    else links_valid s key version 1 [] >>= λ chain.
        if chain
        then (if payload
            then (elim (get s key version) [ none ↦ ok false | some r ↦ payload_valid s r ])
            else ok true)
        else ok false

-- Impl::require.
unfoldable pub require : Store → Bytes → ℕ → Result Error ObjectRecord
require s key expected = do
  r ← or_fail (get s key 0) object_not_found
  guard (not r.deleted) object_not_found
  guard (not (expected == 0) && r.version == expected && ltb expected int64_max) version_conflict
  valid ← validate s key r.version false
  guard valid chain_corrupt
  ok r
