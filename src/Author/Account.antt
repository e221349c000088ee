-- ===== src/Author/Account.antt =====
-- The account of `profile` in Native/src/Core/Authorship.cpp.
use ii_file_provider.Base.{
  ℕ, Bool, true, false, ◌||◌, [], ◌∷◌, ◌++◌, Option, none, some, Bytes, bytes_eq, leb,
  if◌then◌else◌, length, drop, ok, err, ◌>>=◌, ◌>>◌, guard, codes, ◌==◌,
}
use ii_file_provider.Base.Search.{find_byte, starts_with}
use ii_file_provider.Author.Errors.{invalid_argument, Checked}
use ii_file_provider.Author.Unicode.{Utf8proc, normalize}
use ii_file_provider.Author.Json.{
  Json, null, string, object, end, member_of, value_at, keys, member_or, as_string, text,
}
use ii_file_provider.Author.Patterns.{subject_pattern, email_pattern, user_pattern, avatar_pattern}

abbrev pub membership_allowed : Bytes → Bool
membership_allowed m =
    bytes_eq m (codes "Free")
    || (bytes_eq m (codes "Plus") || (bytes_eq m (codes "Pro") || bytes_eq m (codes "Enterprise")))

-- The byte index of the sign in an e-mail address.
abbrev pub short_local : Option ℕ → Bool
short_local none = false
short_local (some sign) = leb sign 64

-- The avatar's URL; `service` stands before a path.
abbrev pub avatar_of : Bytes → Json → Checked Json
avatar_of service null = ok null
avatar_of service (string s) = do
  let url = if starts_with (codes "/") s then service ++ s else s
  guard (starts_with (service ++ codes "/media/avatars/") url) invalid_argument
  guard (avatar_pattern (drop (length service) url)) invalid_argument
  ok (string url)
avatar_of service _ = err invalid_argument

module _ (u : Utf8proc) where
  unfoldable pub email_of : Bytes → Checked Bytes
  email_of raw = do
    mail ← normalize u raw true true
    guard (email_pattern mail) invalid_argument
    ok mail

  unfoldable pub account_of : Bytes → Json → Checked Json
  unfolding email_of
  account_of service account = do
    keys account (
        codes "sub"
        ∷ codes "email"
        ∷ codes "displayName"
        ∷ codes "userId"
        ∷ codes "societyCloudMembership"
        ∷ codes "avatarUrl"
        ∷ [])
    sub ← text u account (codes "sub") 128 true false
    guard (subject_pattern sub) invalid_argument
    written ← text u account (codes "email") 254 true false
    mail ← email_of written
    guard (short_local (find_byte b'@' mail)) invalid_argument
    user ← text u account (codes "userId") 31 false false
    guard (length user == 0 || user_pattern user) invalid_argument
    membership ←
        as_string
          (member_or (value_at account (codes "societyCloudMembership")) (string (codes "Free")))
    guard (membership_allowed membership) invalid_argument
    avatar ← avatar_of service (member_or (value_at account (codes "avatarUrl")) null)
    name ← text u account (codes "displayName") 80 false false
    ok (
        object (
          member_of (codes "avatarUrl") avatar (
            member_of (codes "displayName") (string name) (
              member_of (codes "email") (string mail) (
                member_of (codes "societyCloudMembership") (string membership) (
                  member_of (codes "sub") (string sub)
                    (member_of (codes "userId") (string user) end)))))))
