-- ===== src/Author/Json.antt =====
-- text, dateValue and optionalDate of Native/src/Core/Authorship.cpp, over the values of a JSON library.
pub mod Lookup
use ii_file_provider.Base.{
  ◌&&◌, ◌||◌, false, true, List, ℕ, Bool, not, [], ◌∷◌, Option, none, some, Bytes, bytes_eq,
  if◌then◌else◌, ok, err, ◌>>◌, guard, or_fail, suc,
}
use ii_file_provider.Base.Search.{bytes_ltb}
use ii_file_provider.Author.Errors.{invalid_argument, Checked}
use ii_file_provider.Author.Unicode.{Utf8proc, clean}
use ii_file_provider.Author.Time.{timestamp}

-- A JSON value; a number stands as its text.
mutual
  pub data Json : Type 0 where
    null : Json
    boolean : Bool → Json
    number : Bytes → Json
    string : Bytes → Json
    array : Elements → Json
    object : Members → Json

  pub data Elements : Type 0 where
    nil : Elements
    cons : Json → Elements → Elements

  pub data Members : Type 0 where
    end : Members
    member_of : Bytes → Json → Members → Members

-- `contains(name)` and `value[name]`: the keys of an object are distinct.
unfoldable pub find_member : Members → Bytes → Option Json
find_member end name = none
find_member (member_of key value rest) name =
    if bytes_eq key name then some value else find_member rest name

abbrev pub value_at : Json → Bytes → Option Json
value_at (object members) name = find_member members name
value_at _ name = none

-- `value[name] = item` in an object, whose keys stand in order.
unfoldable pub set_member : Members → Bytes → Json → Members
set_member end name item = member_of name item end
set_member (member_of key value rest) name item =
    let behind = set_member rest name item in
    if bytes_eq key name
    then member_of name item rest
    else if bytes_ltb name key
    then member_of name item (member_of key value rest)
    else member_of key value behind

abbrev pub with_member : Json → Bytes → Json → Json
with_member (object members) name item = object (set_member members name item)
with_member value name item = value

abbrev pub is_listed : Bytes → List Bytes → Bool
is_listed name [] = false
is_listed name (x ∷ xs) = bytes_eq x name || is_listed name xs

abbrev pub all_listed : List Bytes → Members → Bool
all_listed allowed end = true
all_listed allowed (member_of key value rest) = is_listed key allowed && all_listed allowed rest

-- `keys`.
unfoldable pub keys : Json → List Bytes → Checked (Unit {0})
keys (object members) allowed = guard (all_listed allowed members) invalid_argument
keys _ allowed = err invalid_argument

-- `value.at(name)`.
abbrev pub member_at : Json → Bytes → Checked Json
member_at value name = or_fail (value_at value name) invalid_argument

-- `value.value(name, other)`.
abbrev pub member_or : Option Json → Json → Json
member_or none other = other
member_or (some value) other = value

abbrev pub as_string : Json → Checked Bytes
as_string (string s) = ok s
as_string _ = err invalid_argument

abbrev pub as_array : Json → Checked Elements
as_array (array items) = ok items
as_array _ = err invalid_argument

abbrev pub count : Elements → ℕ
count nil = 0
count (cons item items) = suc (count items)

-- What the code calls of the JSON library: `parse` and `dump`, which may throw, `operator==`, and the
-- natural number that a number equals, if there is one.
pub record JsonLibrary : Type 0 where
  pub parse : Bytes → Option Json
  pub dump : Json → Option Bytes
  pub equal : Json → Json → Bool
  pub natural : Bytes → Option ℕ

module _ (u : Utf8proc) where
  abbrev pub text_of : Option Json → ℕ → Bool → Bool → Checked Bytes
  text_of none maximum required multiline = do guard (not required) invalid_argument; ok []
  text_of (some (string s)) maximum required multiline = clean u s maximum required multiline
  text_of (some other) maximum required multiline = err invalid_argument

  unfoldable pub text : Json → Bytes → ℕ → Bool → Bool → Checked Bytes
  unfolding find_member
  text value name maximum required multiline =
      text_of (value_at value name) maximum required multiline

abbrev pub date_of : Option Json → Bool → Checked Bytes
date_of none required = do guard (not required) invalid_argument; ok []
date_of (some null) required = do guard (not required) invalid_argument; ok []
date_of (some (string s)) required = timestamp s
date_of (some other) required = err invalid_argument

unfoldable pub optional_date : Json → Bytes → Bool → Checked Bytes
unfolding find_member
optional_date value name required = date_of (value_at value name) required

abbrev pub date_value : Bytes → Json
date_value [] = null
date_value (c ∷ cs) = string (c ∷ cs)
