-- ===== src/Base/Search.antt =====
-- Searches in byte strings: the members of std::string_view that the sources call.
use Prim.Native.Nat.{ℕ, suc, ◌+◌, ◌-◌}
use mathlib.Core.Bool.{Bool, true, false, ◌&&◌, ◌||◌}
use mathlib.Core.Option.{Option, none, some}
use mathlib.Core.List.{[], ◌∷◌}
use ii_file_provider.Base.Tests.{Bytes, bytes_eq, ltb, leb, ◌==◌, if◌then◌else◌}
use ii_file_provider.Base.Lists.{length, drop, take}

abbrev pub member : ℕ → Bytes → Bool
member c [] = false
member c (x ∷ xs) = x == c || member c xs

abbrev pub next_index : Option ℕ → Option ℕ
next_index none = none
next_index (some i) = some (suc i)

-- `find(c)`; `none` is `npos`.
unfoldable pub find_byte : ℕ → Bytes → Option ℕ
find_byte c [] = none
find_byte c (x ∷ xs) = if x == c then some 0 else next_index (find_byte c xs)

-- `find_first_of(set)`.
unfoldable pub find_first_of : Bytes → Bytes → Option ℕ
find_first_of set [] = none
find_first_of set (x ∷ xs) = if member x set then some 0 else next_index (find_first_of set xs)

abbrev pub later : ℕ → Option ℕ → Option ℕ
later here none = some here
later here (some i) = some (suc i)

-- `rfind(c)`.
unfoldable pub rfind_byte : ℕ → Bytes → Option ℕ
rfind_byte c [] = none
rfind_byte c (x ∷ xs) =
    let rest = rfind_byte c xs in if x == c then later 0 rest else next_index rest

abbrev pub starts_with : Bytes → Bytes → Bool
starts_with [] xs = true
starts_with (p ∷ ps) [] = false
starts_with (p ∷ ps) (x ∷ xs) = x == p && starts_with ps xs

abbrev pub ends_with : Bytes → Bytes → Bool
ends_with suffix xs =
    leb (length suffix) (length xs) && bytes_eq (drop (length xs - length suffix) xs) suffix

-- `substr(0, end)`, where `npos` is the whole text.
abbrev pub before : Option ℕ → Bytes → Bytes
before none xs = xs
before (some i) xs = take i xs

-- `operator<` on strings: by unsigned bytes, a prefix first.
unfoldable pub bytes_ltb : Bytes → Bytes → Bool
bytes_ltb xs [] = false
bytes_ltb [] (y ∷ ys) = true
bytes_ltb (x ∷ xs) (y ∷ ys) = ltb x y || (x == y && bytes_ltb xs ys)

abbrev pub is_alpha : ℕ → Bool
is_alpha c = (leb b'A' c && leb c b'Z') || (leb b'a' c && leb c b'z')

abbrev pub is_decimal : ℕ → Bool
is_decimal c = leb b'0' c && leb c b'9'

abbrev pub is_xdigit : ℕ → Bool
is_xdigit c = is_decimal c || (leb b'A' c && leb c b'F') || (leb b'a' c && leb c b'f')

-- `tolower`.
abbrev pub lower_byte : ℕ → ℕ
lower_byte c = if leb b'A' c && leb c b'Z' then c + 32 else c
