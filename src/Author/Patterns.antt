-- ===== src/Author/Patterns.antt =====
-- The regular expressions of `profile` and `fromDump` in Native/src/Core/Authorship.cpp.
use ii_file_provider.Base.{
  suc, ℕ, Bool, true, false, not, ◌&&◌, ◌||◌, [], ◌∷◌, Option, none, some, Bytes, leb, ltb, ◌==◌,
  if◌then◌else◌, length, take, drop, codes,
}
use ii_file_provider.Base.Search.{find_byte, starts_with, is_alpha, is_decimal}

abbrev pub all_in : (ℕ → Bool) → Bytes → Bool
all_in p [] = true
all_in p (c ∷ cs) = p c && all_in p cs

-- `p{least,most}`.
abbrev pub matches : (ℕ → Bool) → ℕ → ℕ → Bytes → Bool
matches p least most value = leb least (length value) && leb (length value) most && all_in p value

abbrev pub is_lower_hex : ℕ → Bool
is_lower_hex c = is_decimal c || (leb b'a' c && leb c b'f')

abbrev pub is_lower : ℕ → Bool
is_lower c = leb b'a' c && leb c b'z'

abbrev pub is_upper : ℕ → Bool
is_upper c = leb b'A' c && leb c b'Z'

-- [A-Za-z0-9_-]{1,128}
abbrev pub subject_pattern : Bytes → Bool
subject_pattern value =
    matches (λ c. is_alpha c || is_decimal c || c == b'_' || c == b'-') 1 128 value

-- [^\s@]
abbrev pub in_email : ℕ → Bool
in_email c = not (c == 32 || (leb 9 c && leb c 13) || c == b'@')

-- Whether a dot stands before the last character.
abbrev pub dot_inside : Bytes → Bool
dot_inside [] = false
dot_inside (c ∷ []) = false
dot_inside (c ∷ (d ∷ cs)) = c == b'.' || dot_inside (d ∷ cs)

-- [^\s@]+\.[^\s@]+
abbrev pub domain_pattern : Bytes → Bool
domain_pattern [] = false
domain_pattern (c ∷ cs) = all_in in_email (c ∷ cs) && dot_inside cs

abbrev pub email_at : Option ℕ → Bytes → Bool
email_at none value = false
email_at (some sign) value =
    ltb 0 sign && all_in in_email (take sign value) && domain_pattern (drop (suc sign) value)

-- [^\s@]+@[^\s@]+\.[^\s@]+
abbrev pub email_pattern : Bytes → Bool
email_pattern value = email_at (find_byte b'@' value) value

-- @[a-z0-9_]{3,30}
abbrev pub user_pattern : Bytes → Bool
user_pattern [] = false
user_pattern (c ∷ cs) = c == b'@' && matches (λ x. is_lower x || is_decimal x || x == b'_') 3 30 cs

-- [a-f0-9]{64}
abbrev pub device_pattern : Bytes → Bool
device_pattern value = matches is_lower_hex 64 64 value

-- /media/avatars/[a-f0-9]{64}\.webp
abbrev pub avatar_pattern : Bytes → Bool
avatar_pattern value =
    length value == 84
    && starts_with (codes "/media/avatars/") value
    && device_pattern (take 64 (drop 15 value))
    && starts_with (codes ".webp") (drop 79 value)

-- [A-Z]{2}
abbrev pub country_pattern : Bytes → Bool
country_pattern value = matches is_upper 2 2 value

-- Behind a hyphen, of a part with so many characters: (-[A-Za-z0-9]{1,8})*
abbrev pub locale_rest : ℕ → Bytes → Bool
locale_rest size [] = leb 1 size && leb size 8
locale_rest size (c ∷ cs) =
    locale_rest (if c == b'-' then 0 else suc size) cs
    && (if c == b'-' then leb 1 size && leb size 8 else is_alpha c || is_decimal c)

-- The first part: [A-Za-z]{2,8}
abbrev pub locale_first : ℕ → Bytes → Bool
locale_first size [] = leb 2 size && leb size 8
locale_first size (c ∷ cs) =
    let rest = locale_first (suc size) cs in
    let parts = locale_rest 0 cs in
    if c == b'-' then leb 2 size && leb size 8 && parts else is_alpha c && rest

abbrev pub locale_pattern : Bytes → Bool
locale_pattern value = locale_first 0 value

-- 0|[1-9][0-9]*
abbrev pub revision_pattern : Bytes → Bool
revision_pattern [] = false
revision_pattern (c ∷ cs) =
    if c == b'0' then length cs == 0 else is_decimal c && all_in is_decimal cs
