-- ===== src/Author/Locale.antt =====
-- validTimeZone and detailLimits of Native/src/Core/Authorship.cpp.
use ii_file_provider.Base.{
  ℕ, Bool, true, false, not, ◌&&◌, ◌||◌, List, [], ◌∷◌, ◌++◌, Bytes, bytes_eq, if◌then◌else◌, ok,
  ◌>>=◌, ◌==◌, leb, ltb, take, drop, length, get_or, codes, map,
}
use ii_file_provider.Author.Errors.{Checked}
use ii_file_provider.Author.Time.{digits, all_digits}

-- Whether a component of a path, behind what has been read of it, is `.` or `..`.
unfoldable pub has_dots : Bytes → Bytes → Bool
has_dots part [] = bytes_eq part (codes ".") || bytes_eq part (codes "..")
has_dots part (c ∷ cs) =
    if c == b'/'
    then bytes_eq part (codes ".") || (bytes_eq part (codes "..") || has_dots [] cs)
    else has_dots (part ++ c ∷ []) cs

-- `regex_match` with UTC[+-][0-9]{2}:[0-9]{2}.
abbrev pub offset_pattern : Bytes → Bool
offset_pattern value =
    length value == 9
    && (bytes_eq (take 3 value) (codes "UTC")
        && ((get_or value 3 0 == b'+' || get_or value 3 0 == b'-')
            && (all_digits (take 2 (drop 4 value))
                && (get_or value 6 0 == b':' && all_digits (take 2 (drop 7 value))))))

abbrev pub any_of : List Bool → Bool
any_of [] = false
any_of (b ∷ bs) = b || any_of bs

abbrev pub zone_roots : List Bytes
zone_roots =
    codes "/usr/share/zoneinfo"
    ∷ codes "/usr/share/lib/zoneinfo"
    ∷ codes "/var/db/timezone/zoneinfo"
    ∷ []

-- `located` tells whether `locate_zone` returns, `is_file` whether a path is a regular file.
module _ (located : Bytes → Bool) (is_file : Bytes → Bool) where
  abbrev pub has_file : Bytes → Bool
  has_file value =
      not (get_or value 0 0 == b'/')
      && (not (has_dots [] value)
          && any_of (map (λ root. is_file (root ++ b'/' ∷ value)) zone_roots))

  abbrev pub valid_offset : Bytes → Checked Bool
  valid_offset value = do
    hours ← digits (take 2 (drop 4 value))
    minutes ← digits (take 2 (drop 7 value))
    ok (leb hours 14 && ltb minutes 60)

  unfoldable pub valid_time_zone : Bytes → Checked Bool
  unfolding has_dots
  valid_time_zone value =
      if length value == 0
      then ok true
      else if located value
      then ok true
      else if has_file value
      then ok true
      else if bytes_eq value (codes "UTC") || bytes_eq value (codes "GMT")
      then ok true
      else if offset_pattern value
      then valid_offset value
      else ok false

-- A name of a detail, and the most characters it may have.
pub record DetailLimit : Type 0 where
  pub name : Bytes
  pub limit : ℕ

abbrev pub detail : Bytes → ℕ → DetailLimit
detail n l = record { name = n; limit = l }

abbrev pub detail_limits : List DetailLimit
detail_limits =
    detail (codes "fullName") 160
    ∷ detail (codes "givenName") 80
    ∷ detail (codes "additionalName") 80
    ∷ detail (codes "familyName") 80
    ∷ detail (codes "pseudonym") 80
    ∷ detail (codes "biography") 4096
    ∷ detail (codes "organization") 160
    ∷ detail (codes "organizationId") 128
    ∷ detail (codes "department") 160
    ∷ detail (codes "team") 160
    ∷ detail (codes "jobTitle") 160
    ∷ detail (codes "contactEmail") 254
    ∷ detail (codes "phoneNumber") 64
    ∷ detail (codes "locale") 64
    ∷ detail (codes "timeZone") 128
    ∷ detail (codes "countryCode") 2
    ∷ detail (codes "region") 160
    ∷ detail (codes "city") 160
    ∷ []
