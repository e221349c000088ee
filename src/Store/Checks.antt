-- ===== src/Store/Checks.antt =====
-- The checks of ObjectStore.cpp on text arguments: field, metadataValid, authorValid,
-- authorshipValid and pathValid.
use ii_file_provider.Base.{
  ℕ, ◌*◌, Bool, true, false, not, ◌&&◌, ◌||◌, [], ◌∷◌, Bytes, bytes_eq, ◌==◌, ltb, if◌then◌else◌,
  length, Result, ok, ◌>>◌, guard, codes,
}
use ii_file_provider.Store.Tables.{
  Metadata, Author, Error, invalid_metadata, incomplete_document, unsupported_format,
  not_an_actor_profile, not_a_roster, path_not_relative, path_traversal,
}

-- `s.find(c) != npos`.
unfoldable pub contains : ℕ → Bytes → Bool
contains c [] = false
contains c (x ∷ xs) = x == c || contains c xs

abbrev pub is_empty : Bytes → Bool
is_empty [] = true
is_empty (x ∷ xs) = false

abbrev pub Checked : Type 0
Checked = Result Error (Unit {0})

-- `required` is the source's default `true`.
unfoldable pub field : Bytes → ℕ → Bool → Checked
unfolding contains
field s maximum required =
    guard (not ((required && is_empty s) || ltb maximum (length s) || contains 0 s))
      invalid_metadata

abbrev pub author_format : Bytes
author_format = codes "iiFileProvider.FileAuthor/1"

abbrev pub roster_format : Bytes
roster_format = codes "iiFileProvider.Authorship/3"

abbrev pub document_limit : ℕ
document_limit = 2 * 1024 * 1024

unfoldable pub metadata_valid : Metadata → Checked
metadata_valid document = do
  field document.format 128 false
  field document.payload document_limit false
  guard
      (if is_empty document.format
        then is_empty document.payload
        else not (is_empty document.payload))
      incomplete_document
  guard
      (is_empty document.format
        || bytes_eq document.format author_format
        || bytes_eq document.format roster_format)
      unsupported_format

unfoldable pub author_valid : Author → Checked
author_valid author = do
  field author.origin 2048 true
  field author.subject 1024 true
  field author.display_name 4096 false
  metadata_valid author.profile
  guard (is_empty author.profile.format || bytes_eq author.profile.format author_format)
      not_an_actor_profile

unfoldable pub authorship_valid : Metadata → Checked
authorship_valid document = do
  metadata_valid document
  guard (is_empty document.format || bytes_eq document.format roster_format) not_a_roster

-- The first component of a path and what follows its '/', if there is one.
pub data Split : Type 0 where
  last : Bytes → Split
  more : Bytes → Bytes → Split

split_component : Bytes → Split
split_component [] = last []
split_component (c ∷ cs) =
    let rest = split_component cs in
    if c == b'/'
    then more [] cs
    else elim rest [ last part ↦ last (c ∷ part) | more part left ↦ more (c ∷ part) left ]

-- A component that a path may not have.
abbrev pub is_traversal : Bytes → Bool
is_traversal part = is_empty part || bytes_eq part (codes ".") || bytes_eq part (codes "..")

-- `while (offset < path.size()) { … }`; a round takes a byte at least.
components_valid : ℕ → Bytes → Checked
unfolding split_component
components_valid ℕ.zero path = ok tt
components_valid (ℕ.suc fuel) [] = ok tt
components_valid (ℕ.suc fuel) (c ∷ cs) = elim (split_component (c ∷ cs)) [
  | last part ↦ guard (not (is_traversal part)) path_traversal
  | more part left ↦ guard (not (is_traversal part)) path_traversal >> components_valid fuel left
]

abbrev pub last_byte : Bytes → ℕ
last_byte [] = 0
last_byte (x ∷ []) = x
last_byte (x ∷ y ∷ xs) = last_byte (y ∷ xs)

abbrev pub first_byte : Bytes → ℕ
first_byte [] = 0
first_byte (x ∷ xs) = x

unfoldable pub path_valid : Bytes → Checked
unfolding components_valid
path_valid path = do
  field path 32768 true
  guard
      (not (
        first_byte path == b'/'
        || last_byte path == b'/'
        || contains b'\\' path
        || contains b':' path))
      path_not_relative
  components_valid (length path) path
