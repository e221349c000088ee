-- ===== src/Author/Unicode.antt =====
-- scalars, normalize, whitespace and clean of Native/src/Core/Authorship.cpp, over the functions of
-- utf8proc that they call.
pub mod Ends
use ii_file_provider.Base.{
  ℕ, zero, suc, ◌+◌, Bool, true, false, not, ◌&&◌, ◌||◌, List, [], ◌∷◌, ◌++◌, Option, none, some,
  Bytes, ltb, leb, ◌==◌, if◌then◌else◌, length, drop, Result, ok, err, ◌>>=◌, ◌>>◌, guard, or_fail,
}
use ii_file_provider.Author.Errors.{Error, invalid_argument, Checked}

pub data Category : Type 0 where
  control line_separator paragraph_separator space_separator other : Category

-- `utf8proc_iterate` gives a length and a code point, 0 for its errors; `utf8proc_map` a text, with
-- UTF8PROC_COMPAT or without, or an error; then `utf8proc_category`, `_tolower` and `_encode_char`.
pub record Utf8proc : Type 0 where
  pub iterate : Bytes → ℕ × ℕ
  pub normal_form : Bool → Bytes → Option Bytes
  pub category : ℕ → Category
  pub to_lower : ℕ → ℕ
  pub encode : ℕ → Bytes

abbrev pub is_control : Category → Bool
is_control control = true
is_control _ = false

abbrev pub is_space_separator : Category → Bool
is_space_separator space_separator = true
is_space_separator _ = false

abbrev pub is_line_break : Category → Bool
is_line_break line_separator = true
is_line_break paragraph_separator = true
is_line_break _ = false

module _ (u : Utf8proc) where
  -- A round takes a byte at least.
  unfoldable pub scalars_loop : ℕ → Bytes → Checked (List ℕ)
  scalars_loop zero value = ok []
  scalars_loop (suc fuel) [] = ok []
  scalars_loop (suc fuel) (c ∷ cs) = do
    let step = u.iterate (c ∷ cs)
    guard (ltb 0 step.0) invalid_argument
    rest ← scalars_loop fuel (drop step.0 (c ∷ cs))
    ok (step.1 ∷ rest)

  unfoldable pub scalars : Bytes → Checked (List ℕ)
  unfolding scalars_loop
  scalars value = scalars_loop (length value) value

  -- The loop under `fold`.
  unfoldable pub folded : List ℕ → Bytes
  folded [] = []
  folded (point ∷ points) =
      (if point == 0x130 then b'i' ∷ 0xcc ∷ 0x87 ∷ [] else u.encode (u.to_lower point))
      ++ folded points

  unfoldable pub normalize : Bytes → Bool → Bool → Checked Bytes
  normalize input compatibility fold = do
    output ← or_fail (u.normal_form compatibility input) invalid_argument
    (if fold then (scalars output >>= λ points. ok (folded points)) else ok output)

  abbrev pub whitespace : ℕ → Bool
  whitespace c =
      (leb 9 c && leb c 13)
      || c == 0x85
      || is_space_separator (u.category c)
      || c == 0x2028
      || c == 0x2029

  -- `while (!points.empty() && whitespace(points.front())) …`, then the same from the back.
  abbrev pub trim_front : List ℕ → List ℕ
  trim_front [] = []
  trim_front (x ∷ xs) = if whitespace x then trim_front xs else x ∷ xs

  abbrev pub keep_unless_last : ℕ → List ℕ → List ℕ
  keep_unless_last x [] = if whitespace x then [] else x ∷ []
  keep_unless_last x (y ∷ ys) = x ∷ y ∷ ys

  abbrev pub trim_back : List ℕ → List ℕ
  trim_back [] = []
  trim_back (x ∷ xs) = keep_unless_last x (trim_back xs)

  -- The loop that encodes the points again.
  unfoldable pub encoded : Bool → List ℕ → Checked Bytes
  encoded multiline [] = ok []
  encoded multiline (point ∷ points) = do
    guard
        ((multiline && point == 10)
          || not (is_control (u.category point) || is_line_break (u.category point)))
        invalid_argument
    rest ← encoded multiline points
    ok (u.encode point ++ rest)

  unfoldable pub clean : Bytes → ℕ → Bool → Bool → Checked Bytes
  clean value maximum required multiline = do
    normal ← normalize value false false
    all ← scalars normal
    let points = trim_back (trim_front all)
    guard (leb (length points) maximum && (not required || ltb 0 (length points))) invalid_argument
    encoded multiline points
