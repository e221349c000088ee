-- ===== src/Author/Snapshot/Accounts.antt =====
-- What FileAuthor::fromJsonText (Native/src/Core/Authorship.cpp) lets through.
use ii_file_provider.Base.{
  ◌≡◌, refl, sym, subst, ap, ◌∙◌, true, false, ◌||◌, [], ◌∷◌, ◌++◌, Option, none, some, Bytes,
  length, drop, ◌==◌, ok, ◌>>=◌, OnOk, OnOk-after, OnOk-bind, OnOk-guard, OnOk-from, or_fail, codes,
  ok-inj, if◌then◌else◌, bytes_eq,
}
use ii_file_provider.Base.Search.{find_byte, starts_with}
use ii_file_provider.Author.Errors.{invalid_argument}
use ii_file_provider.Author.Unicode.{Utf8proc, normalize}
use ii_file_provider.Author.Time.{timestamp}
use ii_file_provider.Author.Uri.{origin}
use ii_file_provider.Author.Json.{
  Json, JsonLibrary, null, boolean, number, string, array, object, find_member, value_at, keys,
  member_or, as_string, text, optional_date, date_of,
}
use ii_file_provider.Author.Patterns.{subject_pattern, email_pattern, user_pattern, avatar_pattern}
use ii_file_provider.Author.Details.{Zones}
use ii_file_provider.Author.Account.{
  avatar_of, membership_allowed, short_local, email_of, account_of,
}
use ii_file_provider.Author.Snapshot.{Snapshot, string_or_empty, string_at}

-- The JSON value of an avatar, for a service.
pub data Avatar (service : Bytes) : Json → Type 0 where
  no_avatar : Avatar service null
  avatar_at :
      (url : Bytes)
      → starts_with (service ++ codes "/media/avatars/") url ≡ true
      → avatar_pattern (drop (length service) url) ≡ true
      → Avatar service (string url)

-- The URL of an avatar is empty, or a file of the service's avatars.
pub data AvatarUrl (service : Bytes) : Bytes → Type 0 where
  no_url : AvatarUrl service []
  url_at :
      (url : Bytes)
      → starts_with (service ++ codes "/media/avatars/") url ≡ true
      → avatar_pattern (drop (length service) url) ≡ true
      → AvatarUrl service url

pub record IsAuthor (u : Utf8proc) (s : Snapshot) : Type 0 where
  pub subject : subject_pattern s.author.sub ≡ true
  pub mail : email_pattern s.email ≡ true
  pub short : short_local (find_byte b'@' s.email) ≡ true
  pub user : (length s.user_id == 0 || user_pattern s.user_id) ≡ true
  pub member : membership_allowed s.membership ≡ true
  pub avatar : AvatarUrl s.author.service_origin s.avatar_url
  pub served : (url : Bytes) × (origin u url ≡ ok s.author.service_origin)
  pub captured : (stamp : Bytes) × (timestamp stamp ≡ ok s.captured_at)

pub record IsAccount (service : Bytes) (account : Json) : Type 0 where
  pub sub : Bytes
  pub mail : Bytes
  pub user : Bytes
  pub membership : Bytes
  pub avatar : Json
  pub sub_at : value_at account (codes "sub") ≡ some (string sub)
  pub mail_at : value_at account (codes "email") ≡ some (string mail)
  pub user_at : value_at account (codes "userId") ≡ some (string user)
  pub membership_at : value_at account (codes "societyCloudMembership") ≡ some (string membership)
  pub avatar_found : value_at account (codes "avatarUrl") ≡ some avatar
  pub is_subject : subject_pattern sub ≡ true
  pub is_mail : email_pattern mail ≡ true
  pub is_short : short_local (find_byte b'@' mail) ≡ true
  pub is_user : (length user == 0 || user_pattern user) ≡ true
  pub is_member : membership_allowed membership ≡ true
  pub is_avatar : Avatar service avatar

pub found_string :
    (account : Json) (name s found : Bytes)
    → value_at account name ≡ some (string s)
    → string_at account name ≡ ok found
    → s ≡ found
found_string account name s found there e =
    ok-inj (ap (λ o. or_fail o invalid_argument >>= as_string) (sym there) ∙ e)

pub string_or_empty-AvatarUrl :
    (service : Bytes) (avatar : Json) (url : Bytes)
    → Avatar service avatar
    → string_or_empty avatar ≡ ok url
    → AvatarUrl service url
string_or_empty-AvatarUrl service _ url no_avatar e = subst (AvatarUrl service) (ok-inj e) no_url
string_or_empty-AvatarUrl service _ url (avatar_at s under there) e =
    subst (AvatarUrl service) (ok-inj e) (url_at s under there)

date_of-timestamp :
    (o : Option Json) → OnOk (λ d. (given : Bytes) × (timestamp given ≡ ok d)) (date_of o true)
date_of-timestamp none = tt
date_of-timestamp (some null) = tt
date_of-timestamp (some (string s)) = OnOk-from _ (timestamp s) λ d e. (s, e)
date_of-timestamp (some (boolean b)) = tt
date_of-timestamp (some (number n)) = tt
date_of-timestamp (some (array items)) = tt
date_of-timestamp (some (object members)) = tt

pub optional_date-timestamp :
    (value : Json) (name : Bytes)
    → OnOk (λ d. (given : Bytes) × (timestamp given ≡ ok d)) (optional_date value name true)
unfolding optional_date
optional_date-timestamp value name = date_of-timestamp (value_at value name)

module _ (u : Utf8proc) (json : JsonLibrary) (zones : Zones) where
  avatar_of-Avatar :
      (service : Bytes) (given : Json) → OnOk (Avatar service) (avatar_of service given)
  avatar_of-Avatar service null = no_avatar
  avatar_of-Avatar service (string s) =
      let url = if starts_with (codes "/") s then service ++ s else s in
      OnOk-guard (Avatar service) (starts_with (service ++ codes "/media/avatars/") url) _ _
        λ under.
          OnOk-guard (Avatar service) (avatar_pattern (drop (length service) url)) _ _
            λ there. avatar_at url under there
  avatar_of-Avatar service (boolean b) = tt
  avatar_of-Avatar service (number n) = tt
  avatar_of-Avatar service (array items) = tt
  avatar_of-Avatar service (object members) = tt

  email_of-IsMail : (raw : Bytes) → OnOk (λ mail. email_pattern mail ≡ true) (email_of u raw)
  unfolding email_of
  email_of-IsMail raw =
      let P : Bytes → Type 0 = λ mail. email_pattern mail ≡ true in
      OnOk-after P (normalize u raw true true) _
        λ mail _. OnOk-guard P (email_pattern mail) _ _ λ h. h

  pub account_of-IsAccount :
      (service : Bytes) (given : Json) → OnOk (IsAccount service) (account_of u service given)
  unfolding account_of find_member bytes_eq
  account_of-IsAccount service given =
      let P = IsAccount service in
      let own_keys =
        codes "sub"
        ∷ codes "email"
        ∷ codes "displayName"
        ∷ codes "userId"
        ∷ codes "societyCloudMembership"
        ∷ codes "avatarUrl"
        ∷ [] in
      OnOk-after P (keys given own_keys) _ λ _ _.
        OnOk-after P (text u given (codes "sub") 128 true false) _ λ sub _.
          OnOk-guard P (subject_pattern sub) _ _ λ is_subject.
            OnOk-after P (text u given (codes "email") 254 true false) _ λ written _.
              OnOk-bind P (λ mail. email_pattern mail ≡ true) (email_of u written) _
                (email_of-IsMail written)
                λ mail is_mail. OnOk-guard P (short_local (find_byte b'@' mail)) _ _ λ is_short.
                  OnOk-after P (text u given (codes "userId") 31 false false) _ λ user _.
                    OnOk-guard P (length user == 0 || user_pattern user) _ _ λ is_user.
                      OnOk-after P
                        (as_string (
                          member_or (value_at given (codes "societyCloudMembership"))
                            (string (codes "Free"))))
                        _
                        λ membership _.
                          OnOk-guard P (membership_allowed membership) _ _ λ is_member.
                            OnOk-bind P (Avatar service)
                              (avatar_of service
                                (member_or (value_at given (codes "avatarUrl")) null))
                              _ (avatar_of-Avatar service _)
                              λ avatar is_avatar.
                                OnOk-after P (text u given (codes "displayName") 80 false false) _
                                  λ name _. record {
                                    sub = sub;
                                    mail = mail;
                                    user = user;
                                    membership = membership;
                                    avatar = avatar;
                                    sub_at = refl;
                                    mail_at = refl;
                                    user_at = refl;
                                    membership_at = refl;
                                    avatar_found = refl;
                                    is_subject = is_subject;
                                    is_mail = is_mail;
                                    is_short = is_short;
                                    is_user = is_user;
                                    is_member = is_member;
                                    is_avatar = is_avatar;
                                  }
