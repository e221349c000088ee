-- ===== src/Store/Keys.antt =====
-- validationKey: the hash that chains a revision to its parent, session and content.
use ii_file_provider.Base.{
  Bool, true, false, List, [], ◌∷◌, ◌++◌, Bytes, ◌==◌, if◌then◌else◌, length, Result, ok, err,
  ◌>>=◌, to_string, codes,
}
use ii_file_provider.Hash.Object
use ii_file_provider.Hash.Object.{ObjectHash}
use ii_file_provider.Store.Tables.{Session, ObjectRecord, Error, hash_too_long}
use ii_file_provider.Store.Checks.{is_empty}

-- `ObjectHash` throws `length_error` only.
abbrev pub hashed {ℓ} : {A : Type ℓ} → Result Object.Error A → Result Error A
hashed (ok a) = ok a
hashed (err e) = err hash_too_long

-- `add`: the length, a colon and the value are three calls of `update`.
unfoldable pub add : ObjectHash → Bytes → Result Error ObjectHash
add hash value = do
  h ← hashed (Object.update hash (to_string (length value)))
  h' ← hashed (Object.update h (codes ":"))
  hashed (Object.update h' value)

unfoldable pub add_all : ObjectHash → List Bytes → Result Error ObjectHash
add_all hash [] = ok hash
add_all hash (value ∷ values) = do h ← add hash value; add_all h values

abbrev pub key_format : ObjectRecord → Bytes
key_format r =
    if r.schema_version == 1 then codes "society-object-v1" else codes "society-object-v2"

abbrev pub when : Bool → List Bytes → List Bytes
when true values = values
when false values = []

-- The values that are added, in order.
unfoldable pub fields : ObjectRecord → Session → Bytes → Bytes → Bytes → List Bytes
fields r s container context raw =
    (key_format r
      ∷ container
      ∷ r.key
      ∷ to_string r.index_key
      ∷ to_string r.version
      ∷ r.path
      ∷ r.sha256
      ∷ to_string r.size
      ∷ r.author.origin
      ∷ r.author.subject
      ∷ r.author.display_name
      ∷ r.session_key
      ∷ to_string r.recorded_at
      ∷ r.operation
      ∷ (if r.deleted then codes "deleted" else codes "live")
      ∷ r.parent_key
      ∷ s.device
      ∷ s.description
      ∷ to_string s.started_at
      ∷ [])
    ++ (when (r.schema_version == 2) (
          r.author.profile.format ∷ r.author.profile.payload ∷ r.authorship.format
          ∷ r.authorship.payload ∷ r.source_stamp ∷ [])
        ++ (when (if is_empty context then false else true)
              (codes "iiFileProvider.WorkSession/1" ∷ context ∷ [])
            ++ when (if is_empty raw then false else true)
                (codes "iiFileProvider.RawEnvelope/1" ∷ raw ∷ [])))

unfoldable pub validation_key : ObjectRecord → Session → Bytes → Bytes → Bytes → Result Error Bytes
validation_key r s container context raw = do
  hash ← add_all Object.initial (fields r s container context raw)
  ok (key_format r ++ codes ":" ++ Object.finish hash)
