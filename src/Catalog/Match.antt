-- ===== src/Catalog/Match.antt =====
-- matchExpression of src/Catalog/FileSearchIndex.cpp.
pub mod Reader
use ii_file_provider.Base.{
  ℕ, zero, suc, Bool, true, false, not, ◌&&◌, ◌||◌, List, [], ◌∷◌, ◌++◌, Bytes, Result, ok, err,
  ◌>>=◌, ◌>>◌, guard, ltb, leb, ◌==◌, if◌then◌else◌, length, codes, is_some,
}
use ii_file_provider.Base.Search.{find_byte}

-- What the file throws.
pub data Error : Type 0 where
  invalid_argument runtime_error : Error

-- `std::isspace`.
abbrev pub is_space : ℕ → Bool
is_space c = c == 32 || (leb 9 c && leb c 13)

-- `while (at<input.size() && std::isspace(…)) ++at;`
abbrev pub skip_spaces : Bytes → Bytes
skip_spaces [] = []
skip_spaces (c ∷ cs) = if is_space c then skip_spaces cs else c ∷ cs

-- The token that the inner loop collects, and what it leaves of the input.
abbrev pub token : Bytes → Bytes
token [] = []
token (c ∷ cs) =
    let rest = token cs in
    if is_space c then [] else if c == b'"' then b'"' ∷ c ∷ rest else c ∷ rest

abbrev pub behind_token : Bytes → Bytes
behind_token [] = []
behind_token (c ∷ cs) = if is_space c then c ∷ cs else behind_token cs

-- `if (!result.empty()) result+=" AND ";`
abbrev pub separated : Bytes → Bytes
separated [] = []
separated (c ∷ cs) = (c ∷ cs) ++ codes " AND "

abbrev pub add_token : Bytes → Bytes → Bytes
add_token result text = separated result ++ (b'"' ∷ (text ++ codes "\"*"))

-- A round takes a byte at least.
unfoldable pub match_loop : ℕ → Bytes → Bytes → Bytes
match_loop zero result input = result
match_loop (suc fuel) result input = elim (skip_spaces input) [
  | [] ↦ result
  | c ∷ cs ↦ match_loop fuel (add_token result (token (c ∷ cs))) (behind_token (c ∷ cs))
]

unfoldable pub match_expression : Bytes → Result Error Bytes
unfolding match_loop
match_expression input = do
  guard (not (ltb 4096 (length input)) && not (is_some (find_byte 0 input))) invalid_argument
  ok (match_loop (length input) [] input)
