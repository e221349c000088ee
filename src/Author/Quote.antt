-- ===== src/Author/Quote.antt =====
-- The strings of Authorship::rebuildDump in Native/src/Core/Authorship.cpp.
pub mod Reader
use ii_file_provider.Base.{
  ℕ, zero, suc, ◌+◌, ◌*◌, ◌-◌, ◌/◌, ◌%◌, ◌<◌, ◌≤◌, Bool, true, false, ◌&&◌, List, [], ◌∷◌, ◌++◌,
  Option, none, some, Bytes, ltb, leb, ◌==◌, if◌then◌else◌, codes, ◌≡◌, refl, ap, Bool-cases, inl,
  inr, arith, tests, length,
}

abbrev pub hex_char : ℕ → ℕ
hex_char d = if ltb d 10 then b'0' + d else b'a' + (d - 10)

-- What the `switch` adds for a character.
unfoldable pub escape : ℕ → Bytes
escape c =
    if c == b'"'
    then codes "\\\""
    else if c == b'\\'
    then codes "\\\\"
    else if c == 8
    then codes "\\b"
    else if c == 12
    then codes "\\f"
    else if c == 10
    then codes "\\n"
    else if c == 13
    then codes "\\r"
    else if c == 9
    then codes "\\t"
    else if ltb c 32
    then codes "\\u00" ++ hex_char (c / 16) ∷ hex_char (c % 16) ∷ []
    else c ∷ []

unfoldable pub escape_all : Bytes → Bytes
escape_all [] = []
escape_all (c ∷ cs) = escape c ++ escape_all cs

unfoldable pub quote : Bytes → Bytes
unfolding escape_all
quote value = b'"' ∷ escape_all value ++ b'"' ∷ []

unfoldable pub nullable : Bytes → Bytes
nullable [] = codes "null"
nullable (c ∷ cs) = quote (c ∷ cs)
