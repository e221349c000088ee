-- ===== src/Author/Quote/Reader.antt =====
-- A reader of JSON strings of bytes, to hold Authorship::rebuildDump against.
use ii_file_provider.Base.{
  ℕ, zero, suc, ◌+◌, ◌*◌, ◌-◌, ◌/◌, ◌%◌, ◌<◌, true, false, [], ◌∷◌, ◌++◌, append_assoc, Option,
  none, some, Bytes, ltb, ◌==◌, if◌then◌else◌, codes, ◌≡◌, refl, ap, sym, ◌∙◌, Bool-cases, inl, inr,
  arith, tests, subst, ==→eq,
}
use ii_file_provider.Base.Search.{is_xdigit}
use ii_file_provider.Author.Quote.{hex_char, escape, escape_all, quote}

-- Where the reader stands in a string.
pub data Reading : Type 0 where
  plain escaped : Reading
  digits_left : ℕ → ℕ → Reading

pub data Class : Type 0 where
  closing escaping refused : Class
  literal : ℕ → Class

abbrev pub class_of : ℕ → Class
class_of c =
    if c == b'"'
    then closing
    else if c == b'\\'
    then escaping
    else if ltb c 32
    then refused
    else literal c

-- The character of a short escape; 0 for none.
abbrev pub short : ℕ → ℕ
short c =
    if c == b'"'
    then 34
    else if c == b'\\'
    then 92
    else if c == b'/'
    then 47
    else if c == b'b'
    then 8
    else if c == b'f'
    then 12
    else if c == b'n'
    then 10
    else if c == b'r'
    then 13
    else if c == b't'
    then 9
    else 0

abbrev pub hex_value : ℕ → ℕ
hex_value c = if ltb c b'A' then c - b'0' else if ltb c b'a' then c - b'A' + 10 else c - b'a' + 10

abbrev pub push : ℕ → Option (Bytes × Bytes) → Option (Bytes × Bytes)
push c none = none
push c (some (text, rest)) = some (c ∷ text, rest)

unfoldable pub read : Reading → Bytes → Option (Bytes × Bytes)
read state [] = none
read plain (c ∷ cs) = elim (class_of c) [
  | closing ↦ some ([], cs)
  | escaping ↦ read escaped cs
  | refused ↦ none
  | literal d ↦ push d (read plain cs)
]
read escaped (c ∷ cs) = elim (c == b'u') [
  | true ↦ read (digits_left 3 0) cs
  | false ↦ elim (short c == 0) [ true ↦ none | false ↦ push (short c) (read plain cs) ]
]
read (digits_left zero acc) (c ∷ cs) = elim (is_xdigit c) [
  | true ↦ push (acc * 16 + hex_value c) (read plain cs)
  | false ↦ none
]
read (digits_left (suc n) acc) (c ∷ cs) = elim (is_xdigit c) [
  | true ↦ read (digits_left n (acc * 16 + hex_value c)) cs
  | false ↦ none
]

-- A string and what follows it.
unfoldable pub unquote : Bytes → Option (Bytes × Bytes)
unquote [] = none
unquote (c ∷ cs) = if c == b'"' then read plain cs else none

hex_char-xdigit : (d : ℕ) → d < 16 → is_xdigit (hex_char d) ≡ true
hex_char-xdigit d h = ground arith

hex_value-char : (d : ℕ) → d < 16 → hex_value (hex_char d) ≡ d
hex_value-char d h = ground arith

read-digit :
    (n c acc : ℕ) (tail : Bytes)
    → is_xdigit c ≡ true
    → read (digits_left (suc n) acc) (c ∷ tail) ≡ read (digits_left n (acc * 16 + hex_value c)) tail
unfolding read
read-digit n c acc tail h = rw (h, read) refl

read-last :
    (c acc : ℕ) (tail : Bytes)
    → is_xdigit c ≡ true
    → read (digits_left 0 acc) (c ∷ tail) ≡ push (acc * 16 + hex_value c) (read plain tail)
unfolding read
read-last c acc tail h = rw (h, read) refl

class-literal :
    (c : ℕ) → c == b'"' ≡ false → c == b'\\' ≡ false → ltb c 32 ≡ false → class_of c ≡ literal c
class-literal c a b d = rw (a, b, d) refl

read-literal :
    (c : ℕ) (tail : Bytes)
    → class_of c ≡ literal c
    → read plain (c ∷ tail) ≡ push c (read plain tail)
unfolding read
read-literal c tail e = rw (e, read) refl

read-hex :
    (a b : ℕ) (tail : Bytes)
    → a < 16
    → b < 16
    → read plain (codes "\\u00" ++ hex_char a ∷ hex_char b ∷ tail)
      ≡ push (a * 16 + b) (read plain tail)
unfolding read
read-hex a b tail ha hb =
    read-digit 0 (hex_char a) 0 (hex_char b ∷ tail) (hex_char-xdigit a ha)
    ∙ read-last (hex_char b) _ tail (hex_char-xdigit b hb)
    ∙ ap (λ n. push n (read plain tail))
        (rw (hex_value-char a ha, hex_value-char b hb) (omega arith))

-- A proof for the number `k` and one for all others.
unless : (P : ℕ → Type 0) (k c : ℕ) → P k → (c == k ≡ false → P c) → P c
unless P k c at_k other = elim (Bool-cases (c == k)) [
  | inl e ↦ subst P (sym (==→eq c k e)) at_k
  | inr e ↦ other e
]

abbrev Reads : Bytes → ℕ → Type 0
Reads tail c = read plain (escape c ++ tail) ≡ push c (read plain tail)

read-escape : (c : ℕ) (tail : Bytes) → Reads tail c
unfolding escape read
read-escape c tail = unless (Reads tail) b'"' c refl λ quotes.
    unless (Reads tail) b'\\' c refl λ backslash. unless (Reads tail) 8 c refl λ backspace.
      unless (Reads tail) 12 c refl λ feed. unless (Reads tail) 10 c refl λ newline.
        unless (Reads tail) 13 c refl λ return. unless (Reads tail) 9 c refl λ tab.
          elim (Bool-cases (ltb c 32)) [
            | inl small ↦
                rw (quotes, backslash, backspace, feed, newline, return, tab, small)
                  (read-hex (c / 16) (c % 16) tail (omega (tests, small)) (omega arith)
                    ∙ ap (λ n. push n (read plain tail)) (omega arith))
            | inr large ↦
                rw (quotes, backslash, backspace, feed, newline, return, tab, large)
                  (read-literal c tail (class-literal c quotes backslash large))
          ]

read-escape_all :
    (value rest : Bytes) → read plain (escape_all value ++ b'"' ∷ rest) ≡ some (value, rest)
unfolding escape_all read
read-escape_all [] rest = refl
read-escape_all (c ∷ cs) rest =
    ap (read plain) (append_assoc (escape c) (escape_all cs) (b'"' ∷ rest))
    ∙ read-escape c (escape_all cs ++ b'"' ∷ rest)
    ∙ ap (push c) (read-escape_all cs rest)

-- A JSON reader gets back every string that `rebuildDump` quotes, and stops right behind it.
pub unquote-quote : (value rest : Bytes) → unquote (quote value ++ rest) ≡ some (value, rest)
unfolding quote unquote
unquote-quote value rest =
    ap (read plain) (append_assoc (escape_all value) (b'"' ∷ []) rest) ∙ read-escape_all value rest
