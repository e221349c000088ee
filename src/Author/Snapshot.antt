-- ===== src/Author/Snapshot.antt =====
-- FileAuthor::fromJsonText, fromIisaccAccount and displayLabel of Native/src/Core/Authorship.cpp.
pub mod Accounts
mod Built
pub mod Fields
use ii_file_provider.Base.{
  List, [], ◌∷◌, Option, none, some, Bytes, leb, if◌then◌else◌, length, ok, ◌>>=◌, ◌>>◌, or_fail,
  guard, codes, ◌==◌,
}
use ii_file_provider.Author.Errors.{invalid_argument, Checked}
use ii_file_provider.Author.Unicode.{Utf8proc}
use ii_file_provider.Author.Links.{to_option}
use ii_file_provider.Author.Json.{
  Json, Members, JsonLibrary, null, number, string, object, end, member_of, set_member, member_at,
  as_string,
}
use ii_file_provider.Author.Details.{Zones}
use ii_file_provider.Author.Profile.{maximum_profile, profile}
use ii_file_provider.Author.Ledger.{FileAuthor, Record, Authorship, behind_first}

-- FileAuthor: its canonical text, and its metadata.
pub record Snapshot : Type 0 where
  pub author : FileAuthor
  pub email : Bytes
  pub display_name : Bytes
  pub user_id : Bytes
  pub membership : Bytes
  pub avatar_url : Bytes
  pub captured_at : Bytes

abbrev pub display_label : Snapshot → Bytes
display_label s = if length s.display_name == 0 then s.email else s.display_name

-- `is_null() ? std::string() : get<std::string>()`.
abbrev pub string_or_empty : Json → Checked Bytes
string_or_empty null = ok []
string_or_empty value = as_string value

-- The conversion of a member to a std::string.
abbrev pub string_at : Json → Bytes → Checked Bytes
string_at value name = do item ← member_at value name; as_string item

abbrev pub add_snapshot : Option Snapshot → Option (List Snapshot) → Option (List Snapshot)
add_snapshot none rest = none
add_snapshot (some first) none = none
add_snapshot (some first) (some rest) = some (first ∷ rest)

-- An account's entries as a JSON object, and the object that `fromIisaccAccount` prints.
abbrev pub account_members : List (Bytes × Bytes) → Members
account_members [] = end
account_members (p ∷ ps) = set_member (account_members ps) p.0 (string p.1)

abbrev pub account_json : List (Bytes × Bytes) → Bytes → Bytes → Json
account_json account service captured = object (
    member_of (codes "account") (object (account_members account)) (
      member_of (codes "capturedAt") (string captured) (
        member_of (codes "schemaVersion") (number (codes "1"))
          (member_of (codes "serviceOrigin") (string service) end))))

module _ (u : Utf8proc) (json : JsonLibrary) (zones : Zones) where
  -- The snapshot that `fromJsonText` makes of what `profile` returns.
  abbrev pub snapshot_of : Json → Checked Snapshot
  snapshot_of value = do
    printed ← or_fail (json.dump value) invalid_argument
    account ← member_at value (codes "account")
    sub ← string_at account (codes "sub")
    email ← string_at account (codes "email")
    name ← string_at account (codes "displayName")
    user ← string_at account (codes "userId")
    membership ← string_at account (codes "societyCloudMembership")
    given ← member_at account (codes "avatarUrl")
    avatar ← string_or_empty given
    service ← string_at value (codes "serviceOrigin")
    captured ← string_at value (codes "capturedAt")
    ok (record {
      author = record { profile = printed; service_origin = service; sub = sub };
      email = email;
      display_name = name;
      user_id = user;
      membership = membership;
      avatar_url = avatar;
      captured_at = captured;
    })

  unfoldable pub from_json_text : Bytes → Option Snapshot
  unfolding profile
  from_json_text snapshot = to_option (do
    guard (leb (length snapshot) maximum_profile) invalid_argument
    value ← or_fail (json.parse snapshot) invalid_argument
    checked ← profile u json zones value
    snapshot_of checked)

  -- `dump` stands outside every `try`: an exception of it leaves the call.
  unfoldable pub from_iisacc_account :
      List (Bytes × Bytes) → Bytes → Bytes → Checked (Option Snapshot)
  unfolding from_json_text
  from_iisacc_account account service captured = do
    printed ← or_fail (json.dump (account_json account service captured)) invalid_argument
    ok (from_json_text printed)

  -- `firstEditor`.
  unfoldable pub first_editor : Authorship → Option Snapshot
  unfolding from_json_text
  first_editor l = elim l.authors [ [] ↦ none | r ∷ rs ↦ from_json_text r.profile ]

  -- `participants`; `none` is the dereference of an empty optional.
  unfoldable pub read_profiles : List Record → Option (List Snapshot)
  unfolding from_json_text
  read_profiles [] = some []
  read_profiles (r ∷ rs) = add_snapshot (from_json_text r.profile) (read_profiles rs)

  abbrev pub participants : Authorship → Option (List Snapshot)
  participants l = read_profiles (behind_first l.authors)
