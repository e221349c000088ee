-- ===== src/Author/Uri.antt =====
-- validUri, withoutUserInfo and origin of Native/src/Core/Authorship.cpp.
pub mod Escapes
use ii_file_provider.Base.{
  ℕ, zero, suc, ◌+◌, ◌-◌, Bool, true, false, not, ◌&&◌, ◌||◌, List, [], ◌∷◌, ◌++◌, map, Option,
  none, some, Bytes, bytes_eq, ltb, leb, ◌==◌, if◌then◌else◌, length, drop, take, get_or, ok, err,
  ◌>>◌, guard, codes, digits_value, is_some,
}
use ii_file_provider.Base.Search.{
  find_byte, find_first_of, rfind_byte, starts_with, ends_with, before, is_alpha, is_decimal,
  is_xdigit, lower_byte,
}
use ii_file_provider.Author.Errors.{invalid_argument, Checked}
use ii_file_provider.Author.Unicode.{Utf8proc, scalars, is_control}

-- The bytes of a code point that is written in per cent signs.
abbrev pub escaped_size : ℕ → ℕ
escaped_size c =
    if leb 0x80 c then (if ltb c 0x800 then 6 else if ltb c 0x10000 then 9 else 12) else 1

abbrev pub escaped_sizes : List ℕ → ℕ
escaped_sizes [] = 0
escaped_sizes (c ∷ cs) = escaped_size c + escaped_sizes cs

module _ (u : Utf8proc) where
  abbrev pub is_printable : ℕ → Bool
  is_printable c = not (leb c 32 || is_control (u.category c) || c == 0x2028 || c == 0x2029)

  abbrev pub all_printable : List ℕ → Bool
  all_printable [] = true
  all_printable (c ∷ cs) = is_printable c && all_printable cs

  -- The `try` block; an exception of `scalars` is a `false`.
  unfoldable pub text_allowed : Bytes → Bool
  text_allowed value = elim (scalars u value) [
    | err e ↦ false
    | ok points ↦ all_printable points && leb (escaped_sizes points) 8192
  ]

abbrev pub in_scheme : ℕ → Bool
in_scheme c = is_alpha c || is_decimal c || c == b'+' || c == b'-' || c == b'.'

abbrev pub all_in_scheme : Bytes → Bool
all_in_scheme [] = true
all_in_scheme (c ∷ cs) = in_scheme c && all_in_scheme cs

-- `colon != npos && (path == npos || colon < path)`: the index of a scheme's colon.
abbrev pub colon_before : Option ℕ → Option ℕ → Option ℕ
colon_before none path = none
colon_before (some colon) none = some colon
colon_before (some colon) (some path) = if ltb colon path then some colon else none

unfoldable pub scheme_end : Bytes → Option ℕ
scheme_end value = colon_before (find_byte b':' value) (find_first_of (codes "/?#") value)

-- The tests on a scheme, if there is one.
unfoldable pub scheme_allowed : Option ℕ → Bool → Bytes → Bool
scheme_allowed none absolute value = not absolute
scheme_allowed (some colon) absolute value =
    not (colon == 0 || not (is_alpha (get_or value 0 0)))
    && all_in_scheme (take (colon - 1) (drop 1 value))

-- The loop over the per cent signs; a round takes a byte at least.
unfoldable pub escapes_allowed : ℕ → Bytes → Bool
escapes_allowed zero value = true
escapes_allowed (suc fuel) [] = true
escapes_allowed (suc fuel) (c ∷ cs) =
    let escape = escapes_allowed fuel (drop 2 cs) in
    let plain = escapes_allowed fuel cs in
    if c == b'%'
    then (if leb 2 (length cs) && is_xdigit (get_or cs 0 0) && is_xdigit (get_or cs 1 0)
        then escape
        else false)
    else plain

abbrev pub all_decimal : Bytes → Bool
all_decimal [] = true
all_decimal (c ∷ cs) = is_decimal c && all_decimal cs

-- The last test, on a port that is not empty: `from_chars` and the range.
abbrev pub port_allowed : Bytes → Bool
port_allowed [] = true
port_allowed (c ∷ cs) = all_decimal (c ∷ cs) && leb (digits_value 0 (c ∷ cs)) 65535

-- What follows the `]` of a literal address.
abbrev pub after_bracket : Bytes → Bool
after_bracket [] = true
after_bracket (c ∷ cs) = c == b':' && port_allowed cs

abbrev pub literal_allowed : Option ℕ → Bytes → Bool
literal_allowed none host = false
literal_allowed (some end) host =
    not (end == 1)
    && is_some (find_byte b':' (take (end - 1) (drop 1 host)))
    && after_bracket (drop (end + 1) host)

abbrev pub name_allowed : Option ℕ → Bytes → Bool
name_allowed none host = true
name_allowed (some sep) host = not (sep == 0) && port_allowed (drop (sep + 1) host)

unfoldable pub host_allowed : Bytes → Bool
host_allowed host =
    if get_or host 0 0 == b'['
    then literal_allowed (find_byte b']' host) host
    else not (is_some (find_first_of (codes "[]\\") host))
      && name_allowed (find_byte b':' host) host

abbrev pub after_user : Option ℕ → Bytes → Bytes
after_user none authority = authority
after_user (some sign) authority = drop (sign + 1) authority

-- `substr(0, colon) == "file"` under a scheme.
abbrev pub is_file_scheme : Option ℕ → Bytes → Bool
is_file_scheme none value = false
is_file_scheme (some colon) value = bytes_eq (take colon value) (codes "file")

abbrev pub after_scheme : Option ℕ → Bytes → Bytes
after_scheme none value = value
after_scheme (some colon) value = drop (colon + 1) value

-- `substr(0, find_first_of("/?#"))`.
abbrev pub authority_of : Bytes → Bytes
authority_of rest = before (find_first_of (codes "/?#") rest) rest

-- The tests under `rest.starts_with("//")`.
unfoldable pub authority_allowed : Option ℕ → Bytes → Bool
authority_allowed scheme value =
    let authority = authority_of (drop 2 (after_scheme scheme value)) in
    let host = after_user (rfind_byte b'@' authority) authority in
    if length authority == 0
    then is_file_scheme scheme value
    else if length host == 0
    then false
    else host_allowed host

unfoldable pub valid_uri : Utf8proc → Bytes → Bool → Bool
unfolding text_allowed scheme_end scheme_allowed escapes_allowed authority_allowed
valid_uri u value absolute =
    not (length value == 0 || ltb 8192 (length value))
    && text_allowed u value
    && scheme_allowed (scheme_end value) absolute value
    && escapes_allowed (length value) value
    && (if starts_with (codes "//") (after_scheme (scheme_end value) value)
        then authority_allowed (scheme_end value) value
        else true)

-- `find("://")`.
unfoldable pub find_marker : Bytes → Option ℕ
find_marker [] = none
find_marker (c ∷ cs) =
    let rest = find_marker cs in
    if starts_with (codes "://") (c ∷ cs)
    then some 0
    else elim rest [ none ↦ none | some i ↦ some (suc i) ]

abbrev pub no_user_in : Bytes → Bool
no_user_in authority = not (length authority == 0) && not (is_some (find_byte b'@' authority))

abbrev pub no_user_after : Option ℕ → Bytes → Bool
no_user_after none url = false
no_user_after (some marker) url = no_user_in (authority_of (drop (marker + 3) url))

unfoldable pub without_user_info : Bytes → Bool
unfolding find_marker
without_user_info url = no_user_after (find_marker url) url

-- `value.pop_back()` for a slash at the end.
abbrev pub drop_last : Bytes → Bytes
drop_last value = take (length value - 1) value

-- `slash == npos || slash == value.size() - 1`, with the slash's index from 8 on.
abbrev pub slash_last : Option ℕ → Bytes → Bool
slash_last none value = true
slash_last (some slash) value = slash + 8 == length value - 1

unfoldable pub origin : Utf8proc → Bytes → Checked Bytes
unfolding valid_uri
origin u value = do
  guard
      (valid_uri u value true
        && starts_with (codes "https://") value
        && not (is_some (find_first_of (codes "@?#") (drop 8 value))))
      invalid_argument
  let slash = find_byte b'/' (drop 8 value)
  guard (slash_last slash value) invalid_argument
  let bare = if is_some slash then drop_last value else value
  guard (ltb 8 (length bare) && leb (length bare) 2048) invalid_argument
  let lower = take 8 bare ++ map lower_byte (drop 8 bare)
  ok (if ends_with (codes ":443") lower then take (length lower - 4) lower else lower)
