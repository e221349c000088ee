-- ===== src/Author/Profile.antt =====
-- `profile` in Native/src/Core/Authorship.cpp: the snapshot of an author.
use ii_file_provider.Base.{
  ℕ, Bool, true, false, not, ◌&&◌, ◌||◌, List, [], ◌∷◌, none, some, Bytes, bytes_eq, leb, length,
  ok, ◌>>=◌, ◌>>◌, guard, codes, ◌==◌,
}
use ii_file_provider.Base.Search.{bytes_ltb}
use ii_file_provider.Author.Errors.{invalid_argument, Checked}
use ii_file_provider.Author.Unicode.{Utf8proc, clean}
use ii_file_provider.Author.Uri.{origin}
use ii_file_provider.Author.Json.{
  Json, Elements, JsonLibrary, null, number, string, array, object, nil, cons, end, value_at,
  with_member, keys, member_at, member_or, as_string, as_array, count, text, optional_date,
  date_value,
}
use ii_file_provider.Author.Patterns.{device_pattern}
use ii_file_provider.Author.Locale.{DetailLimit, detail}
use ii_file_provider.Author.Account.{account_of}
use ii_file_provider.Author.Details.{
  Zones, dump_within, names_of, secure_url, set_texts, detail_at, details_of,
}

abbrev pub maximum_profile : ℕ
maximum_profile = 131072

-- What `std::set::insert` says of each name, behind those that are there.
abbrev pub is_among : Bytes → List Bytes → Bool
is_among name [] = false
is_among name (x ∷ xs) = bytes_eq x name || is_among name xs

abbrev pub attribution_limits : List DetailLimit
attribution_limits =
    detail (codes "credit") 1024
    ∷ detail (codes "copyrightNotice") 1024
    ∷ detail (codes "licenseIdentifier") 128
    ∷ detail (codes "licenseUrl") 2048
    ∷ detail (codes "documentId") 128
    ∷ detail (codes "projectId") 128
    ∷ detail (codes "workspaceId") 128
    ∷ []

abbrev pub device_limits : List DetailLimit
device_limits =
    detail (codes "id") 64
    ∷ detail (codes "type") 6
    ∷ detail (codes "name") 80
    ∷ detail (codes "platform") 40
    ∷ detail (codes "osVersion") 80
    ∷ detail (codes "appId") 128
    ∷ detail (codes "appVersion") 40
    ∷ []

abbrev pub in_order : Bytes → Bytes → Bool
in_order created modified =
    length created == 0 || (length modified == 0 || not (bytes_ltb modified created))

abbrev pub is_one : JsonLibrary → Json → Bool
is_one json (number digits) = elim (json.natural digits) [ none ↦ false | some n ↦ n == 1 ]
is_one json _ = false

module _ (u : Utf8proc) where
  -- The roles, behind those that have been seen.
  unfoldable pub roles_of : List Bytes → Elements → Checked Elements
  roles_of seen nil = ok nil
  roles_of seen (cons item items) = do
    raw ← as_string item
    name ← clean u raw 40 true false
    guard (not (is_among name seen)) invalid_argument
    rest ← roles_of (name ∷ seen) items
    ok (cons (string name) rest)

  unfoldable pub attribution_of : Json → Checked Json
  unfolding roles_of set_texts
  attribution_of given = do
    keys given
        (codes "roles" ∷ codes "createdAt" ∷ codes "modifiedAt" ∷ names_of attribution_limits)
    items ← as_array (member_or (value_at given (codes "roles")) (array nil))
    guard (leb (count items) 16) invalid_argument
    roles ← roles_of [] items
    attribution ←
        set_texts u [] false attribution_limits (with_member given (codes "roles") (array roles))
    license ← detail_at attribution (codes "licenseUrl")
    guard (length license == 0 || secure_url u license) invalid_argument
    created ← optional_date attribution (codes "createdAt") false
    modified ← optional_date attribution (codes "modifiedAt") false
    guard (in_order created modified) invalid_argument
    ok (
        with_member (with_member attribution (codes "createdAt") (date_value created))
          (codes "modifiedAt") (date_value modified))

  unfoldable pub device_of : Json → Checked Json
  unfolding set_texts
  device_of null = ok null
  device_of given = do
    keys given (names_of device_limits)
    device ← set_texts u [] true device_limits given
    id ← detail_at device (codes "id")
    kind ← detail_at device (codes "type")
    guard (device_pattern id && (bytes_eq kind (codes "pc") || bytes_eq kind (codes "tablet")))
        invalid_argument
    ok device

  unfoldable pub profile : JsonLibrary → Zones → Json → Checked Json
  unfolding account_of details_of attribution_of device_of
  profile json zones value = do
    dump_within json value maximum_profile
    keys value (
        codes "schemaVersion"
        ∷ codes "account"
        ∷ codes "details"
        ∷ codes "attribution"
        ∷ codes "serviceOrigin"
        ∷ codes "capturedAt"
        ∷ codes "device"
        ∷ [])
    version ← member_at value (codes "schemaVersion")
    guard (is_one json version) invalid_argument
    url ← text u value (codes "serviceOrigin") 2048 true false
    service ← origin u url
    let served = with_member value (codes "serviceOrigin") (string service)
    captured ← optional_date served (codes "capturedAt") true
    let dated = with_member served (codes "capturedAt") (string captured)
    given ← member_at dated (codes "account")
    account ← account_of u service given
    let owned = with_member dated (codes "account") account
    details ← details_of u json zones (member_or (value_at owned (codes "details")) (object end))
    let detailed = with_member owned (codes "details") details
    attribution ← attribution_of (member_or (value_at detailed (codes "attribution")) (object end))
    let attributed = with_member detailed (codes "attribution") attribution
    device ← device_of (member_or (value_at attributed (codes "device")) null)
    let whole = with_member attributed (codes "device") device
    dump_within json whole maximum_profile
    ok whole
