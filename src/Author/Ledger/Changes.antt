-- ===== src/Author/Ledger/Changes.antt =====
-- The changes of an Authorship of Native/src/Core/Authorship.cpp: setAuthor, setLinks and
-- setLinksFromStrings. They return the code's Boolean and the ledger behind the call; a thrown
-- exception leaves the ledger as it was.
use ii_file_provider.Base.{
  Bool, true, false, ◌&&◌, List, [], ◌∷◌, ◌++◌, Option, none, some, Bytes, bytes_eq, ltb,
  if◌then◌else◌, length, find, ok, ◌>>=◌, ◌>>◌, guard,
}
use ii_file_provider.Author.Errors.{invalid_argument, Checked}
use ii_file_provider.Author.Unicode.{Utf8proc}
use ii_file_provider.Author.Links.{FileLink, links_eq, validated_links, parse_links}
use ii_file_provider.Author.Ledger.{
  FileAuthor, Record, Authorship, maximum_authors, key_for, record_change,
}

abbrev pub has_key : Bytes → Record → Bool
has_key key r = bytes_eq r.key key

abbrev pub activate : Authorship → Bytes → Authorship
activate l key = record {
  revision = l.revision;
  modified_at = l.modified_at;
  last_author = l.last_author;
  active_author = key;
  dump = l.dump;
  authors = l.authors;
  links = l.links;
}

-- `next` before `recordChange`.
abbrev pub edited : Authorship → Bytes → List Record → List FileLink → Authorship
edited l active rows valid = record {
  revision = l.revision;
  modified_at = l.modified_at;
  last_author = l.last_author;
  active_author = active;
  dump = l.dump;
  authors = rows;
  links = valid;
}

abbrev pub with_profile : Bytes → Record → Record
with_profile profile r = record {
  key = r.key;
  profile = profile;
  first_changed_at = r.first_changed_at;
  last_changed_at = r.last_changed_at;
}

-- `r.profile = author.toJsonText()` for the first row with the key.
unfoldable pub replace_profile : Bytes → Bytes → List Record → List Record
replace_profile key profile [] = []
replace_profile key profile (r ∷ rs) =
    if has_key key r then with_profile profile r ∷ rs else r ∷ replace_profile key profile rs

abbrev pub new_record : Bytes → Bytes → Record
new_record key profile = record {
  key = key;
  profile = profile;
  first_changed_at = [];
  last_changed_at = [];
}

abbrev pub recorded : Authorship → Bytes → Checked (Bool × Authorship)
recorded next at = do after ← record_change next at; ok (true, after)

-- The body of the loop for the row with the key, and what follows the loop without one.
unfoldable pub set_row :
    Authorship
    → FileAuthor
    → Bytes
    → List FileLink
    → Bytes
    → Option Record
    → Checked (Bool × Authorship)
set_row l author key valid at (some r) =
    if bytes_eq r.profile author.profile && links_eq valid l.links
    then ok (false, activate l key)
    else recorded (edited l key (replace_profile key author.profile l.authors) valid) at
set_row l author key valid at none = do
  guard (ltb (length l.authors) maximum_authors) invalid_argument
  recorded (edited l key (l.authors ++ new_record key author.profile ∷ []) valid) at

module _ (u : Utf8proc) where
  unfoldable pub set_author :
      Authorship → FileAuthor → List FileLink → Bytes → Checked (Bool × Authorship)
  unfolding set_row
  set_author l author links at = do
    valid ← validated_links u links
    key ← key_for author
    set_row l author key valid at (find (has_key key) l.authors)

  -- The overload without links.
  unfoldable pub set_author_only : Authorship → FileAuthor → Bytes → Checked (Bool × Authorship)
  unfolding set_author
  set_author_only l author at = set_author l author l.links at

  unfoldable pub set_links : Authorship → List FileLink → Bytes → Checked (Bool × Authorship)
  set_links l links at = do
    parsed ← validated_links u links
    if links_eq parsed l.links
        then ok (false, l)
        else recorded (edited l l.active_author l.authors parsed) at

  unfoldable pub set_links_from_strings :
      Authorship → List Bytes → Bytes → Checked (Bool × Authorship)
  unfolding set_links
  set_links_from_strings l entries at = do links ← parse_links u entries; set_links l links at
