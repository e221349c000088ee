-- ===== src/Author/Tests/Snapshots.antt =====
-- An author with an avatar, read by `fromJsonText` over ASCII and a JSON library of one document.
use ii_file_provider.Base.{
  ◌≡◌, refl, false, [], ◌++◌, Option, none, some, Bytes, codes, digits_value, bytes_eq,
}
use ii_file_provider.Base.Search.{find_byte, find_first_of, rfind_byte, bytes_ltb}
use ii_file_provider.Author.Time.{timestamp}
use ii_file_provider.Author.Calendar.{is_date}
use ii_file_provider.Author.Unicode.{clean, normalize, scalars, encoded, folded}
use ii_file_provider.Author.Uri.{host_allowed, origin}
use ii_file_provider.Author.Locale.{valid_time_zone}
use ii_file_provider.Author.Json.{
  Json, JsonLibrary, number, string, object, end, member_of, set_member, keys, text, optional_date,
}
use ii_file_provider.Author.Snapshot.{Snapshot, display_label, from_json_text}
use ii_file_provider.Author.Snapshot.Accounts.{IsAuthor}
use ii_file_provider.Author.Snapshot.Fields.{from_json_text-IsAuthor}
use ii_file_provider.Author.Tests.{ascii, noon, writer}
use ii_file_provider.Author.Tests.Reading.{no_zones}

abbrev avatar_path : Bytes
avatar_path =
    codes "/media/avatars/0123456789abcdef0123456789abcdef0123456789abcdef0123456789abcdef.webp"

abbrev person : Json
person = object (
    member_of (codes "account")
      (object (
        member_of (codes "avatarUrl") (string avatar_path) (
          member_of (codes "email") (string (codes "Ann@Example.org"))
            (member_of (codes "sub") (string (codes "ann-1")) end))))
      (member_of (codes "capturedAt") (string noon) (
        member_of (codes "schemaVersion") (number (codes "1"))
          (member_of (codes "serviceOrigin") (string (codes "https://a.b/")) end))))

abbrev one_person : JsonLibrary
one_person = record {
  parse = λ bytes. some person;
  dump = λ value. some (codes "{}");
  equal = λ first second. false;
  natural = λ digits. some (digits_value 0 digits);
}

abbrev nobody : Snapshot
nobody = record {
  author = writer;
  email = [];
  display_name = [];
  user_id = [];
  membership = [];
  avatar_url = [];
  captured_at = [];
}

abbrev snapshot_or : Option Snapshot → Snapshot
snapshot_or none = nobody
snapshot_or (some s) = s

abbrev ann : Snapshot
ann = snapshot_or (from_json_text ascii one_person no_zones (codes "{}"))

is_ann : from_json_text ascii one_person no_zones (codes "{}") ≡ some ann
unfolding from_json_text set_member keys text optional_date timestamp is_date clean normalize
    scalars encoded find_byte find_first_of rfind_byte host_allowed bytes_eq origin valid_time_zone
    bytes_ltb folded
is_ann = refl

ann_content :
    (display_label ann ≡ codes "ann@example.org")
    × (ann.membership ≡ codes "Free")
    × (ann.avatar_url ≡ codes "https://a.b" ++ avatar_path)
unfolding from_json_text set_member keys text optional_date timestamp is_date clean normalize
    scalars encoded find_byte find_first_of rfind_byte host_allowed bytes_eq origin valid_time_zone
    bytes_ltb folded
ann_content = (refl, refl, refl)

from_json_text-IsAuthor_example : IsAuthor ascii ann
from_json_text-IsAuthor_example =
    from_json_text-IsAuthor ascii one_person no_zones (codes "{}") ann is_ann
