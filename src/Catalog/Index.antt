-- ===== src/Catalog/Index.antt =====
-- FileSearchIndex of src/Catalog/FileSearchIndex.cpp: the table `entries` and the set of its paths.
pub mod Kept
use ii_file_provider.Base.{
  ℕ, zero, suc, ◌+◌, ◌-◌, min, Bool, true, false, not, ◌&&◌, ◌||◌, List, [], ◌∷◌, ◌++◌, map, Bytes,
  bytes_eq, Result, ok, err, ◌>>=◌, ◌>>◌, guard, ltb, leb, ◌==◌, if◌then◌else◌, length, take,
  is_some,
}
use ii_file_provider.Base.Search.{find_byte, bytes_ltb}
use ii_file_provider.Catalog.Match.{Error, invalid_argument, runtime_error, match_expression}

-- Also a row of the table, whose texts to search are those of all entries of its path.
pub record FileSearchEntry : Type 0 where
  pub path : Bytes
  pub title : Bytes
  pub file_key : Bytes
  pub mime_type : Bytes
  pub classification : Bytes
  pub search_terms : Bytes
  pub size : ℕ
  pub has_classification : Bool
  pub has_presentation : Bool
  pub metadata_pending : Bool

pub record FileSearchIndex : Type 0 where
  pub entries : List FileSearchEntry
  pub indexed : List Bytes

abbrev pub maximum_size : ℕ
maximum_size = 9223372036854775807

-- What `VALUES` holds.
abbrev pub excluded : FileSearchEntry → FileSearchEntry
excluded e = record {
  path = e.path;
  title = e.title;
  file_key = e.file_key;
  mime_type = e.mime_type;
  classification = e.classification;
  search_terms = e.search_terms;
  size = min e.size maximum_size;
  has_classification = e.has_classification;
  has_presentation = e.has_presentation;
  metadata_pending = e.metadata_pending;
}

-- `DO UPDATE SET`: the row of a path with the values of another entry for it.
unfoldable pub merged : FileSearchEntry → FileSearchEntry → FileSearchEntry
merged old new = record {
  path = old.path;
  title =
      if old.has_classification
      then old.title
      else if new.has_classification
      then new.title
      else old.title;
  file_key = if old.has_classification then old.file_key else new.file_key;
  mime_type = if not (length new.mime_type == 0) then new.mime_type else old.mime_type;
  classification = if old.has_classification then old.classification else new.classification;
  search_terms = old.search_terms ++ (b' ' ∷ new.search_terms);
  size = new.size;
  has_classification = old.has_classification || new.has_classification;
  has_presentation = old.has_presentation || new.has_presentation;
  metadata_pending = if old.has_classification then old.metadata_pending else new.metadata_pending;
}

abbrev pub at_path : Bytes → FileSearchEntry → Bool
at_path path row = bytes_eq row.path path

unfoldable pub insert_row : FileSearchEntry → List FileSearchEntry → List FileSearchEntry
insert_row new [] = new ∷ []
insert_row new (row ∷ rows) =
    if at_path new.path row then merged row new ∷ rows else row ∷ insert_row new rows

unfoldable pub has_path : Bytes → List Bytes → Bool
has_path path [] = false
has_path path (p ∷ ps) = if bytes_eq p path then true else has_path path ps

-- `Statement::bind` of the texts.
abbrev pub bindable : FileSearchEntry → Bool
bindable e =
    leb (length e.path) 2147483647
    && leb (length e.title) 2147483647
    && leb (length e.file_key) 2147483647
    && leb (length e.mime_type) 2147483647
    && leb (length e.classification) 2147483647
    && leb (length e.search_terms) 2147483647

abbrev pub indexed_with : Bytes → List Bytes → List Bytes
indexed_with path paths = if has_path path paths then paths else path ∷ paths

-- `erase` of the position of a path.
unfoldable pub without_path : Bytes → List Bytes → List Bytes
without_path path [] = []
without_path path (p ∷ ps) =
    let rest = without_path path ps in if bytes_eq p path then ps else p ∷ rest

-- Whether SQLite executes the statement for an entry on a table.
abbrev pub Executes : Type 0
Executes = FileSearchEntry → List FileSearchEntry → Bool

-- The binds of the statement, and its execution; both throw if they fail.
abbrev pub write_row :
    Executes → FileSearchEntry → List FileSearchEntry → Result Error (List FileSearchEntry)
write_row executes e rows = do
  guard (bindable e) invalid_argument
  guard (executes e rows) runtime_error
  ok (insert_row (excluded e) rows)

-- The `catch`, behind the insertion of the path into the set.
abbrev pub or_erased :
    Bool
    → Bytes
    → FileSearchIndex
    → Result Error (List FileSearchEntry)
    → Result Error Bool × FileSearchIndex
or_erased created path index (ok rows) =
    (ok created, record { entries = rows; indexed = index.indexed })
or_erased created path index (err e) = (
  err e,
  record {
    entries = index.entries;
    indexed = if created then without_path path index.indexed else index.indexed;
  },
)

abbrev pub put_entry :
    Executes → FileSearchIndex → FileSearchEntry → Result Error Bool × FileSearchIndex
put_entry executes index e =
    let inserted : FileSearchIndex = record {
      entries = index.entries;
      indexed = indexed_with e.path index.indexed;
    } in
    or_erased (not (has_path e.path index.indexed)) e.path inserted
      (write_row executes e inserted.entries)

-- What a call returns or throws, and the index that it leaves.
unfoldable pub upsert :
    Executes → FileSearchIndex → FileSearchEntry → Result Error Bool × FileSearchIndex
upsert executes index e =
    if length e.path == 0 || is_some (find_byte 0 e.path)
    then (err invalid_argument, index)
    else put_entry executes index e

abbrev pub contains_path : FileSearchIndex → Bytes → Bool
contains_path index path = has_path path index.indexed

-- A result has no texts to search.
abbrev pub result_of : FileSearchEntry → FileSearchEntry
result_of row = record {
  path = row.path;
  title = row.title;
  file_key = row.file_key;
  mime_type = row.mime_type;
  classification = row.classification;
  search_terms = [];
  size = row.size;
  has_classification = row.has_classification;
  has_presentation = row.has_presentation;
  metadata_pending = row.metadata_pending;
}

-- SQLite's part: `ordered` gives the rows in the order of their paths, `ranked` those that match a
-- query of FTS5, by rank and path.
unfoldable pub search :
    (List FileSearchEntry → List FileSearchEntry)
    → (Bytes → List FileSearchEntry → List FileSearchEntry)
    → FileSearchIndex
    → Bytes
    → ℕ
    → Result Error (List FileSearchEntry)
unfolding match_expression
search ordered ranked index query limit = do
  guard (not (limit == 0) && leb limit 1024) invalid_argument
  expression ← match_expression query
  let rows =
      if length expression == 0 then ordered index.entries else ranked expression index.entries
  ok (map result_of (take limit rows))
