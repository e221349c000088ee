-- ===== src/Author/Ledger.antt =====
-- Authorship of Native/src/Core/Authorship.cpp: who changed a file, when, and the links it carries.
pub mod Changes
pub mod Order
pub mod Valid
pub mod Kept
pub mod Recorded
pub mod Setters
pub mod Histories
pub mod Later
pub mod Rows
pub mod Reading
pub mod Entries
pub mod FromDump
use ii_file_provider.Base.{
  ℕ, ◌+◌, Bool, true, false, not, ◌&&◌, ◌||◌, List, [], ◌∷◌, ◌++◌, Option, none, some, Bytes,
  bytes_eq, ltb, leb, ◌==◌, if◌then◌else◌, length, Result, ok, err, ◌>>=◌, ◌>>◌, or_fail, guard,
  codes, to_string,
}
use ii_file_provider.Base.Search.{bytes_ltb}
use ii_file_provider.Hash.Native
use ii_file_provider.Author.Errors.{Error, invalid_argument, overflow_error, length_error, Checked}
use ii_file_provider.Author.Time.{timestamp}
use ii_file_provider.Author.Unicode.{Utf8proc}
use ii_file_provider.Author.Quote.{quote, nullable}
use ii_file_provider.Author.Links.{FileLink, links_eq, validated_links, parse_links}

-- What the ledger reads of a FileAuthor: its canonical text, and two members of its metadata.
pub record FileAuthor : Type 0 where
  pub profile : Bytes
  pub service_origin : Bytes
  pub sub : Bytes

pub record Record : Type 0 where
  pub key : Bytes
  pub profile : Bytes
  pub first_changed_at : Bytes
  pub last_changed_at : Bytes

pub record Authorship : Type 0 where
  pub revision : ℕ
  pub modified_at : Bytes
  pub last_author : Bytes
  pub active_author : Bytes
  pub dump : Bytes
  pub authors : List Record
  pub links : List FileLink

abbrev pub maximum_revision : ℕ
maximum_revision = 18446744073709551615

abbrev pub maximum_bytes : ℕ
maximum_bytes = 2097152

abbrev pub maximum_authors : ℕ
maximum_authors = 256

abbrev pub too_long {ℓ} : {A : Type ℓ} → Result Native.Error A → Checked A
too_long (ok a) = ok a
too_long (err e) = err length_error

unfoldable pub key_for : FileAuthor → Checked Bytes
key_for author = too_long (Native.sha256 (author.service_origin ++ b'\n' ∷ author.sub))

-- The loops of `rebuildDump`: a comma stands before every entry but the first.
unfoldable pub authors_text : Bool → List Record → Bytes
authors_text first [] = []
authors_text first (r ∷ rs) =
    (if first then [] else codes ",")
    ++ codes "{\"author\":"
    ++ r.profile
    ++ codes ",\"firstChangedAt\":"
    ++ quote r.first_changed_at
    ++ codes ",\"key\":"
    ++ quote r.key
    ++ codes ",\"lastChangedAt\":"
    ++ quote r.last_changed_at
    ++ codes "}"
    ++ authors_text false rs

unfoldable pub links_text : Bool → List FileLink → Bytes
links_text first [] = []
links_text first (l ∷ ls) =
    (if first then [] else codes ",")
    ++ codes "{\"name\":"
    ++ quote l.name
    ++ codes ",\"url\":"
    ++ quote l.url
    ++ codes "}"
    ++ links_text false ls

unfoldable pub participants_text : Bool → List Record → Bytes
participants_text first [] = []
participants_text first (r ∷ rs) =
    (if first then [] else codes ",") ++ quote r.key ++ participants_text false rs

abbrev pub first_key : List Record → Bytes
first_key [] = []
first_key (r ∷ rs) = r.key

abbrev pub behind_first : List Record → List Record
behind_first [] = []
behind_first (r ∷ rs) = rs

unfoldable pub dump_text : Authorship → Bytes
unfolding authors_text links_text participants_text
dump_text l =
    codes "{\"authors\":["
    ++ authors_text true l.authors
    ++ codes "],\"firstEditor\":"
    ++ nullable (first_key l.authors)
    ++ codes ",\"lastAuthor\":"
    ++ nullable l.last_author
    ++ codes ",\"links\":["
    ++ links_text true l.links
    ++ codes "],\"modifiedAt\":"
    ++ nullable l.modified_at
    ++ codes ",\"participants\":["
    ++ participants_text true (behind_first l.authors)
    ++ codes "],\"revision\":"
    ++ quote (to_string l.revision)
    ++ codes ",\"schemaVersion\":3}"

abbrev pub with_dump : Authorship → Bytes → Authorship
with_dump l text = record {
  revision = l.revision;
  modified_at = l.modified_at;
  last_author = l.last_author;
  active_author = l.active_author;
  dump = text;
  authors = l.authors;
  links = l.links;
}

unfoldable pub rebuild_dump : Authorship → Checked Authorship
unfolding dump_text
rebuild_dump l = do
  guard (leb (length (dump_text l)) maximum_bytes) length_error
  ok (with_dump l (dump_text l))

abbrev pub blank : Authorship
blank = record {
  revision = 0;
  modified_at = [];
  last_author = [];
  active_author = [];
  dump = [];
  authors = [];
  links = [];
}

-- The constructor.
unfoldable pub empty_ledger : Checked Authorship
unfolding rebuild_dump
empty_ledger = rebuild_dump blank

abbrev pub is_empty_text : Bytes → Bool
is_empty_text [] = true
is_empty_text (c ∷ cs) = false

abbrev pub is_empty : Authorship → Bool
is_empty l = l.revision == 0 && length l.authors == 0

abbrev pub clear_active_author : Authorship → Authorship
clear_active_author l = record {
  revision = l.revision;
  modified_at = l.modified_at;
  last_author = l.last_author;
  active_author = [];
  dump = l.dump;
  authors = l.authors;
  links = l.links;
}

abbrev pub has_active_author : Authorship → Bool
has_active_author l = not (is_empty_text l.active_author)

-- `next.modifiedAt_ = at`, unless it is later already.
unfoldable pub later_of : Bytes → Bytes → Bytes
later_of modified stamp =
    if is_empty_text modified || bytes_ltb modified stamp then stamp else modified

abbrev pub stamped : Bytes → Record → Record
stamped at r = record {
  key = r.key;
  profile = r.profile;
  first_changed_at = if is_empty_text r.first_changed_at then at else r.first_changed_at;
  last_changed_at = at;
}

-- The loop over the rows up to the active author's.
unfoldable pub stamp_row : Bytes → Bytes → List Record → List Record
stamp_row key at [] = []
stamp_row key at (r ∷ rs) =
    if bytes_eq r.key key then stamped at r ∷ rs else r ∷ stamp_row key at rs

abbrev pub changed : Authorship → Bytes → Authorship
changed l modified = record {
  revision = l.revision + 1;
  modified_at = modified;
  last_author = l.active_author;
  active_author = l.active_author;
  dump = l.dump;
  authors = stamp_row l.active_author modified l.authors;
  links = l.links;
}

unfoldable pub record_change : Authorship → Bytes → Checked Authorship
unfolding rebuild_dump
record_change l at = do
  stamp ← timestamp at
  guard (not (l.revision == maximum_revision)) overflow_error
  rebuild_dump (changed l (later_of l.modified_at stamp))
