-- ===== src/Author/Details.antt =====
-- The details of `profile` in Native/src/Core/Authorship.cpp.
use ii_file_provider.Base.{
  ℕ, Bool, true, false, ◌&&◌, ◌||◌, List, [], ◌∷◌, ◌++◌, Bytes, bytes_eq, leb, length, ok, ◌>>=◌,
  ◌>>◌, or_fail, guard, codes, ◌==◌,
}
use ii_file_provider.Base.Search.{starts_with}
use ii_file_provider.Author.Errors.{invalid_argument, Checked}
use ii_file_provider.Author.Unicode.{Utf8proc}
use ii_file_provider.Author.Uri.{valid_uri, without_user_info}
use ii_file_provider.Author.Json.{
  Json, Elements, JsonLibrary, string, array, nil, cons, value_at, with_member, keys, member_at,
  member_or, as_string, as_array, count, text,
}
use ii_file_provider.Author.Patterns.{country_pattern, locale_pattern}
use ii_file_provider.Author.Locale.{DetailLimit, detail_limits, valid_time_zone}
use ii_file_provider.Author.Account.{email_of}

abbrev pub holds : Checked Bool → Checked (Unit {0})
holds test = do b ← test; guard b invalid_argument

abbrev pub names_of : List DetailLimit → List Bytes
names_of [] = []
names_of (l ∷ ls) = l.name ∷ names_of ls

-- A URL over https without user information.
abbrev pub secure_url : Utf8proc → Bytes → Bool
secure_url u url =
    valid_uri u url true && starts_with (codes "https://") url && without_user_info url

-- `validTimeZone` asks the time zone database and the file system.
pub record Zones : Type 0 where
  pub located : Bytes → Bool
  pub is_file : Bytes → Bool

abbrev pub dump_within : JsonLibrary → Json → ℕ → Checked (Unit {0})
dump_within json value most = do
  printed ← or_fail (json.dump value) invalid_argument
  guard (leb (length printed) most) invalid_argument

-- A detail that is written now; `text` has put it there.
abbrev pub detail_at : Json → Bytes → Checked Bytes
detail_at details name = do item ← member_at details name; as_string item

unfoldable pub each : (Json → Checked Json) → Elements → Checked Elements
each f nil = ok nil
each f (cons item items) = do first ← f item; rest ← each f items; ok (cons first rest)

unfoldable pub entries_of : Bytes → (Json → Checked Json) → Json → Checked Json
unfolding each
entries_of name f details = do
  items ← as_array (member_or (value_at details name) (array nil))
  guard (leb (count items) 32) invalid_argument
  entries ← each f items
  ok (with_member details name (array entries))

module _ (u : Utf8proc) where
  -- `value[key] = text(value, key, …)` for each limit; `long` is the name that may have lines.
  unfoldable pub set_texts : Bytes → Bool → List DetailLimit → Json → Checked Json
  set_texts long required [] value = ok value
  set_texts long required (l ∷ ls) value = do
    written ← text u value l.name l.limit required (bytes_eq l.name long)
    set_texts long required ls (with_member value l.name (string written))

  unfoldable pub link_of : Json → Checked Json
  link_of entry = do
    keys entry (codes "relation" ∷ codes "label" ∷ codes "url" ∷ [])
    relation ← text u entry (codes "relation") 40 true false
    let first = with_member entry (codes "relation") (string relation)
    label ← text u first (codes "label") 160 false false
    let second = with_member first (codes "label") (string label)
    url ← text u second (codes "url") 2048 true false
    guard (secure_url u url) invalid_argument
    ok (with_member second (codes "url") (string url))

  unfoldable pub identifier_of : Json → Checked Json
  identifier_of entry = do
    keys entry (codes "scheme" ∷ codes "value" ∷ [])
    scheme ← text u entry (codes "scheme") 40 true false
    let first = with_member entry (codes "scheme") (string scheme)
    written ← text u first (codes "value") 256 true false
    ok (with_member first (codes "value") (string written))

  abbrev pub contact_of : Json → Bytes → Checked Json
  contact_of details [] = ok details
  contact_of details (c ∷ cs) = do
    mail ← email_of u (c ∷ cs)
    ok (with_member details (codes "contactEmail") (string mail))

  unfoldable pub details_of : JsonLibrary → Zones → Json → Checked Json
  unfolding set_texts entries_of link_of identifier_of
  details_of json zones given = do
    dump_within json given 65536
    keys given (names_of detail_limits ++ codes "links" ∷ codes "identifiers" ∷ [])
    details ← set_texts (codes "biography") false detail_limits given
    country ← detail_at details (codes "countryCode")
    guard (length country == 0 || country_pattern country) invalid_argument
    locale ← detail_at details (codes "locale")
    guard (length locale == 0 || locale_pattern locale) invalid_argument
    zone ← detail_at details (codes "timeZone")
    holds (valid_time_zone zones.located zones.is_file zone)
    mail ← detail_at details (codes "contactEmail")
    reached ← contact_of details mail
    linked ← entries_of (codes "links") link_of reached
    entries_of (codes "identifiers") identifier_of linked
