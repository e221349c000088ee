-- ===== src/Author/Snapshot/Fields.antt =====
-- The fields of the author that FileAuthor::fromJsonText (Native/src/Core/Authorship.cpp) returns.
use ii_file_provider.Base.{
  ◌≡◌, subst, true, false, ◌||◌, [], ◌∷◌, some, Bytes, length, ◌==◌, leb, ok, OnOk, OnOk-after,
  OnOk-bind, or_fail, guard, codes,
}
use ii_file_provider.Base.Search.{find_byte}
use ii_file_provider.Author.Errors.{invalid_argument}
use ii_file_provider.Author.Unicode.{Utf8proc}
use ii_file_provider.Author.Time.{timestamp}
use ii_file_provider.Author.Uri.{origin}
use ii_file_provider.Author.Links.{to_option-OnOk}
use ii_file_provider.Author.Json.{
  Json, JsonLibrary, null, string, object, end, value_at, with_member, keys, member_at, member_or,
  text, optional_date,
}
use ii_file_provider.Author.Json.Lookup.{keys-IsObject, member_at-value_at}
use ii_file_provider.Author.Patterns.{subject_pattern, email_pattern, user_pattern}
use ii_file_provider.Author.Details.{Zones, dump_within, details_of}
use ii_file_provider.Author.Profile.{maximum_profile, is_one, attribution_of, device_of, profile}
use ii_file_provider.Author.Account.{membership_allowed, short_local, account_of}
use ii_file_provider.Author.Snapshot.{
  string_or_empty, string_at, snapshot_of, from_json_text, Snapshot,
}
use ii_file_provider.Author.Snapshot.Accounts.{
  Avatar, AvatarUrl, IsAuthor, IsAccount, found_string, string_or_empty-AvatarUrl,
  optional_date-timestamp, account_of-IsAccount,
}
use ii_file_provider.Author.Snapshot.Built.{HasAccount, built-HasAccount}

module _ (u : Utf8proc) where
  snapshot_of-IsAuthor :
      (json : JsonLibrary) (zones : Zones) (value : Json)
      → HasAccount u value
      → OnOk (IsAuthor u) (snapshot_of u json zones value)
  snapshot_of-IsAuthor json zones value h =
      let P = IsAuthor u in
      OnOk-after P (or_fail (json.dump value) invalid_argument) _ λ printed _.
        OnOk-after P (member_at value (codes "account")) _ λ account is.
          let own =
            subst (IsAccount h.service)
              (member_at-value_at value (codes "account") h.account account h.account_at is)
              h.is_account in
          OnOk-after P (string_at account (codes "sub")) _ λ sub is_sub.
            OnOk-after P (string_at account (codes "email")) _ λ email is_email.
              OnOk-after P (string_at account (codes "displayName")) _ λ name _.
                OnOk-after P (string_at account (codes "userId")) _ λ user is_user.
                  OnOk-after P (string_at account (codes "societyCloudMembership")) _
                    λ membership is_membership.
                      OnOk-after P (member_at account (codes "avatarUrl")) _ λ given is_given.
                        OnOk-after P (string_or_empty given) _ λ avatar is_avatar.
                          OnOk-after P (string_at value (codes "serviceOrigin")) _
                            λ service is_service.
                              OnOk-after P (string_at value (codes "capturedAt")) _
                                λ stamp is_stamp.
                                  let mail =
                                    found_string account (codes "email") own.mail email own.mail_at
                                      is_email in
                                  let from =
                                    found_string value (codes "serviceOrigin") h.service service
                                      h.service_at is_service in
                                  let at =
                                    found_string value (codes "capturedAt") h.stamp stamp h.stamp_at
                                      is_stamp in
                                  let shown =
                                    subst (Avatar h.service)
                                      (member_at-value_at account (codes "avatarUrl") own.avatar
                                        given own.avatar_found is_given)
                                      own.is_avatar in
                                  record {
                                    subject =
                                        subst (λ x. subject_pattern x ≡ true)
                                          (found_string account (codes "sub") own.sub sub own.sub_at
                                            is_sub)
                                          own.is_subject;
                                    mail = subst (λ x. email_pattern x ≡ true) mail own.is_mail;
                                    short =
                                        subst (λ x. short_local (find_byte b'@' x) ≡ true) mail
                                          own.is_short;
                                    user =
                                        subst (λ x. (length x == 0 || user_pattern x) ≡ true)
                                          (found_string account (codes "userId") own.user user
                                            own.user_at is_user)
                                          own.is_user;
                                    member =
                                        subst (λ x. membership_allowed x ≡ true)
                                          (found_string account (codes "societyCloudMembership")
                                            own.membership membership own.membership_at
                                            is_membership)
                                          own.is_member;
                                    avatar =
                                        subst (λ x. AvatarUrl x avatar) from
                                          (string_or_empty-AvatarUrl h.service given avatar shown
                                            is_avatar);
                                    served =
                                        subst (λ x. (url : Bytes) × (origin u url ≡ ok x)) from
                                          h.served;
                                    captured =
                                        subst (λ x. (given : Bytes) × (timestamp given ≡ ok x)) at
                                          h.captured;
                                  }

  profile-HasAccount :
      (json : JsonLibrary) (zones : Zones) (value : Json)
      → OnOk (HasAccount u) (profile u json zones value)
  unfolding profile
  profile-HasAccount json zones value =
      let P = HasAccount u in
      let own_keys =
        codes "schemaVersion"
        ∷ codes "account"
        ∷ codes "details"
        ∷ codes "attribution"
        ∷ codes "serviceOrigin"
        ∷ codes "capturedAt"
        ∷ codes "device"
        ∷ [] in
      OnOk-after P (dump_within json value maximum_profile) _ λ _ _.
        OnOk-after P (keys value own_keys) _ λ _ is.
          OnOk-after P (member_at value (codes "schemaVersion")) _ λ version _.
            OnOk-after P (guard (is_one json version) invalid_argument) _ λ _ _.
              OnOk-after P (text u value (codes "serviceOrigin") 2048 true false) _ λ url _.
                OnOk-after P (origin u url) _ λ service served.
                  let origin_put = with_member value (codes "serviceOrigin") (string service) in
                  OnOk-bind P (λ d. (given : Bytes) × (timestamp given ≡ ok d))
                    (optional_date origin_put (codes "capturedAt") true) _
                    (optional_date-timestamp origin_put (codes "capturedAt"))
                    λ stamp captured.
                      let stamp_put = with_member origin_put (codes "capturedAt") (string stamp) in
                      OnOk-after P (member_at stamp_put (codes "account")) _ λ given _.
                        OnOk-bind P (IsAccount service) (account_of u service given) _
                          (account_of-IsAccount u json zones service given)
                          λ account own.
                            let account_put = with_member stamp_put (codes "account") account in
                            OnOk-after P
                              (details_of u json zones
                                (member_or (value_at account_put (codes "details")) (object end)))
                              _
                              λ details _.
                                let detailed = with_member account_put (codes "details") details in
                                OnOk-after P
                                  (attribution_of u (
                                    member_or (value_at detailed (codes "attribution"))
                                      (object end)))
                                  _
                                  λ attribution _.
                                    let attributed =
                                      with_member detailed (codes "attribution") attribution in
                                    OnOk-after P
                                      (device_of u
                                        (member_or (value_at attributed (codes "device")) null))
                                      _
                                      λ device _.
                                        let whole =
                                          with_member attributed (codes "device") device in
                                        OnOk-after P (dump_within json whole maximum_profile) _
                                          λ _ _.
                                            built-HasAccount u value account details attribution
                                              device service stamp (keys-IsObject value own_keys is)
                                              own (url, served) captured

-- The author that `fromJsonText` returns, whatever the text and the JSON library: its subject and
-- its address match their patterns, the address with 64 bytes at most before the sign, its user's
-- name is empty or matches, its membership is one of the four, its picture is empty or an avatar of
-- the service, and its service and stamp are what `origin` and `timestamp` print.
pub from_json_text-IsAuthor :
    (u : Utf8proc) (json : JsonLibrary) (zones : Zones) (snapshot : Bytes) (s : Snapshot)
    → from_json_text u json zones snapshot ≡ some s
    → IsAuthor u s
unfolding from_json_text
from_json_text-IsAuthor u json zones snapshot s e =
    let P = IsAuthor u in
    to_option-OnOk P _
      (OnOk-after P (guard (leb (length snapshot) maximum_profile) invalid_argument) _ λ _ _.
        OnOk-after P (or_fail (json.parse snapshot) invalid_argument) _ λ value _.
          OnOk-bind P (HasAccount u) (profile u json zones value) _
            (profile-HasAccount u json zones value)
            λ checked h. snapshot_of-IsAuthor u json zones checked h)
      e
