-- ===== src/Author/Ledger/Reading.antt =====
-- Authorship::fromDump of Native/src/Core/Authorship.cpp.
use ii_file_provider.Base.{
  ℕ, Bool, true, false, not, ◌&&◌, ◌||◌, List, [], ◌∷◌, ◌++◌, Option, Bytes, bytes_eq, leb, ◌==◌,
  if◌then◌else◌, length, find, is_some, ok, err, ◌>>=◌, ◌>>◌, or_fail, guard, codes, digits_value,
}
use ii_file_provider.Base.Search.{bytes_ltb}
use ii_file_provider.Author.Errors.{invalid_argument, Checked}
use ii_file_provider.Author.Unicode.{Utf8proc}
use ii_file_provider.Author.Links.{FileLink, to_option, create, validated_links, maximum_links}
use ii_file_provider.Author.Json.{
  Json, Elements, JsonLibrary, null, number, string, nil, cons, keys, member_at, member_or,
  value_at, as_string, as_array, count, text, optional_date,
}
use ii_file_provider.Author.Patterns.{revision_pattern}
use ii_file_provider.Author.Details.{Zones, dump_within}
use ii_file_provider.Author.Snapshot.{from_json_text}
use ii_file_provider.Author.Ledger.{
  Record, Authorship, maximum_revision, maximum_bytes, maximum_authors, key_for, rebuild_dump,
}
use ii_file_provider.Author.Ledger.Changes.{has_key}

abbrev pub schema_one : List Bytes
schema_one =
    codes "schemaVersion"
    ∷ codes "revision"
    ∷ codes "modifiedAt"
    ∷ codes "authors"
    ∷ codes "lastAuthor"
    ∷ []

abbrev pub schema_two : List Bytes
schema_two = codes "firstEditor" ∷ codes "participants" ∷ schema_one

abbrev pub schema_three : List Bytes
schema_three = codes "links" ∷ schema_two

abbrev pub new_row : Bytes → Bytes → Bytes → Bytes → Record
new_row key profile first last = record {
  key = key;
  profile = profile;
  first_changed_at = first;
  last_changed_at = last;
}

-- What has been read, before `rebuildDump`.
abbrev pub read_ledger : ℕ → Bytes → List Record → Bytes → List FileLink → Authorship
read_ledger revision modified rows last links = record {
  revision = revision;
  modified_at = modified;
  last_author = last;
  active_author = [];
  dump = [];
  authors = rows;
  links = links;
}

-- `lastAuthor`: null, or the key of a row.
abbrev pub last_of : List Record → Json → Checked Bytes
last_of rows null = ok []
last_of rows (string key) = do guard (is_some (find (has_key key) rows)) invalid_argument; ok key
last_of rows _ = err invalid_argument

abbrev pub untouched : ℕ → Bytes → List Record → List FileLink → Bool
untouched revision modified rows links =
    not (revision == 0) || (length rows == 0 && (length links == 0 && length modified == 0))

unfoldable pub revision_of : Bytes → Checked ℕ
revision_of raw = do
  guard (revision_pattern raw) invalid_argument
  guard (leb (digits_value 0 raw) maximum_revision) invalid_argument
  ok (digits_value 0 raw)

module _ (u : Utf8proc) (json : JsonLibrary) (zones : Zones) where
  -- The schema's number, and the tests that depend on it.
  abbrev pub schema_of : Json → Checked ℕ
  schema_of (number digits) = or_fail (json.natural digits) invalid_argument
  schema_of _ = err invalid_argument

  unfoldable pub check_schema : ℕ → Json → Checked (Unit {0})
  check_schema schema value =
      if schema == 1
      then (do dump_within json value 1048576; keys value schema_one)
      else if schema == 2
      then (do dump_within json value 1081344; keys value schema_two)
      else (do guard (schema == 3) invalid_argument; keys value schema_three)

  -- The body of the loop over the authors, behind the rows that have been read.
  unfoldable pub read_row : List Record → Bytes → Json → Checked Record
  unfolding from_json_text
  read_row rows modified item = do
    keys item (codes "key" ∷ codes "author" ∷ codes "firstChangedAt" ∷ codes "lastChangedAt" ∷ [])
    given ← member_at item (codes "author")
    printed ← or_fail (json.dump given) invalid_argument
    snapshot ← or_fail (from_json_text u json zones printed) invalid_argument
    key ← text u item (codes "key") 64 true false
    own ← key_for snapshot.author
    guard (bytes_eq key own && not (is_some (find (has_key key) rows))) invalid_argument
    first ← optional_date item (codes "firstChangedAt") true
    last ← optional_date item (codes "lastChangedAt") true
    guard (not (bytes_ltb last first) && not (bytes_ltb modified last)) invalid_argument
    ok (new_row key snapshot.author.profile first last)

  unfoldable pub read_rows : List Record → Bytes → Elements → Checked (List Record)
  unfolding read_row
  read_rows rows modified nil = ok rows
  read_rows rows modified (cons item items) = do
    row ← read_row rows modified item
    read_rows (rows ++ row ∷ []) modified items

  unfoldable pub read_links : Elements → Checked (List FileLink)
  read_links nil = ok []
  read_links (cons item items) = do
    keys item (codes "name" ∷ codes "url" ∷ [])
    given ← member_at item (codes "name")
    name ← as_string given
    target ← member_at item (codes "url")
    url ← as_string target
    link ← or_fail (create u name url) invalid_argument
    rest ← read_links items
    ok (link ∷ rest)

  -- The member `links` of schema 3.
  unfoldable pub schema_links : Json → Checked (List FileLink)
  unfolding read_links
  schema_links value = do
    given ← member_at value (codes "links")
    items ← as_array given
    guard (leb (count items) maximum_links) invalid_argument
    links ← read_links items
    validated_links u links

  unfoldable pub links_of : ℕ → Json → Checked (List FileLink)
  links_of schema value = if schema == 3 then schema_links value else ok []

  -- The members of schema 2 and 3 that the rows determine.
  unfoldable pub check_roles : ℕ → Json → Authorship → Checked (Unit {0})
  check_roles schema value ledger =
      if leb 2 schema
      then (do
        canonical ← or_fail (json.parse ledger.dump) invalid_argument
        editor ← member_at value (codes "firstEditor")
        others ← member_at value (codes "participants")
        guard
            (json.equal editor (member_or (value_at canonical (codes "firstEditor")) null)
              && json.equal others (member_or (value_at canonical (codes "participants")) null))
            invalid_argument)
      else ok tt

  unfoldable pub read_ledger_of : Json → Checked Authorship
  unfolding check_schema revision_of read_rows links_of check_roles rebuild_dump
  read_ledger_of value = do
    version ← member_at value (codes "schemaVersion")
    schema ← schema_of version
    check_schema schema value
    raw ← text u value (codes "revision") 20 true false
    revision ← revision_of raw
    modified ← optional_date value (codes "modifiedAt") (not (revision == 0))
    given ← member_at value (codes "authors")
    items ← as_array given
    guard (leb (count items) maximum_authors) invalid_argument
    rows ← read_rows [] modified items
    named ← member_at value (codes "lastAuthor")
    last ← last_of rows named
    links ← links_of schema value
    guard (untouched revision modified rows links) invalid_argument
    ledger ← rebuild_dump (read_ledger revision modified rows last links)
    check_roles schema value ledger
    ok ledger

  unfoldable pub from_dump : Bytes → Option Authorship
  unfolding read_ledger_of
  from_dump bytes = to_option (do
    guard (leb (length bytes) maximum_bytes) invalid_argument
    value ← or_fail (json.parse bytes) invalid_argument
    read_ledger_of value)
