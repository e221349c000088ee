-- ===== src/Store/Framing/Binding.antt =====
-- validationKey and the fields that it hashes.
use ii_file_provider.Base.{
  ◌≡◌, ◌≢◌, ◌⊎◌, inl, inr, refl, sym, ap, ◌∙◌, Bool-cases, List, [], ◌++◌, append_assoc, Bytes,
  bytes_eq, bytes_eq_iff, length, arith, codes, ok, OnOk, OnOk-bind, OnOk-ok,
}
use ii_file_provider.Hash.Object
use ii_file_provider.Hash.Object.{ObjectHash}
use ii_file_provider.Hash.Object.Digest.{Took, initial-Took, finalize-hash_state, standard_hex}
use ii_file_provider.Hash.Words.{words_of}
use ii_file_provider.Store.Tables.{Session, ObjectRecord}
use ii_file_provider.Store.Keys.{add_all, key_format, fields, validation_key}
use ii_file_provider.Store.Framing.{frames, frames-inj, append_split, add_all-Took}

-- The text of a key for a framed text that is hashed.
abbrev pub key_text : ObjectRecord → Bytes → Bytes
key_text r message = key_format r ++ (codes ":" ++ standard_hex message)

validation_key-key_text :
    (r : ObjectRecord) (s : Session) (container context raw : Bytes)
    → OnOk
        (λ key. key ≡ key_text r (frames (fields r s container context raw)))
        (validation_key r s container context raw)
unfolding validation_key
validation_key-key_text r s container context raw =
    OnOk-bind (λ key. key ≡ key_text r message) (Took message) (add_all Object.initial values) _
      (add_all-Took values [] Object.initial initial-Took)
      λ h t.
        append_assoc (key_format r) (codes ":") (Object.finish h)
        ∙ ap (λ text. key_format r ++ (codes ":" ++ text)) (printed h t)
  where
    values : List Bytes
    values = fields r s container context raw

    message : Bytes
    message = frames values

    printed : (h : ObjectHash) → Took message h → Object.finish h ≡ standard_hex message
    printed h t =
        unfold Object.finish in ap (λ w. Object.hex (words_of w)) (finalize-hash_state message h t)

key_format-length : (r r' : ObjectRecord) → length (key_format r) ≡ length (key_format r')
key_format-length r r' = ground arith

-- Two texts with one hash.
abbrev pub Collision : Bytes → Bytes → Type 0
Collision x y = (x ≢ y) × (standard_hex x ≡ standard_hex y)

-- Two records, with their sessions, containers, contexts and RAW documents, that get the same
-- validation key have the same list of hashed fields, or their framed fields are a collision of
-- SHA-256.
pub validation_key-fields :
    (r r' : ObjectRecord) (s s' : Session)
    (container container' context context' raw raw' key : Bytes)
    → validation_key r s container context raw ≡ ok key
    → validation_key r' s' container' context' raw' ≡ ok key
    → (fields r s container context raw ≡ fields r' s' container' context' raw')
      ⊎ Collision
          (frames (fields r s container context raw))
          (frames (fields r' s' container' context' raw'))
validation_key-fields r r' s s' container container' context context' raw raw' key e e' =
    elim (Bool-cases (bytes_eq m m')) [
      | inl same ↦ inl (frames-inj _ _ ((bytes_eq_iff m m').0 same))
      | inr differ ↦ inr ((λ same. ground (arith, (bytes_eq_iff m m').1 same)), digests.1)
    ]
  where
    m : Bytes
    m = frames (fields r s container context raw)

    m' : Bytes
    m' = frames (fields r' s' container' context' raw')

    text : key ≡ key_text r m
    text =
        OnOk-ok (λ k. k ≡ key_text r m) (validation_key r s container context raw) key
          (validation_key-key_text r s container context raw) e

    text' : key ≡ key_text r' m'
    text' =
        OnOk-ok (λ k. k ≡ key_text r' m') (validation_key r' s' container' context' raw') key
          (validation_key-key_text r' s' container' context' raw') e'

    parts :
        (key_format r ≡ key_format r')
        × (codes ":" ++ standard_hex m ≡ codes ":" ++ standard_hex m')
    parts =
        append_split (key_format r) (key_format r') (codes ":" ++ standard_hex m)
          (codes ":" ++ standard_hex m') (key_format-length r r') (sym text ∙ text')

    digests : (codes ":" ≡ codes ":") × (standard_hex m ≡ standard_hex m')
    digests = append_split (codes ":") (codes ":") (standard_hex m) (standard_hex m') refl parts.1
