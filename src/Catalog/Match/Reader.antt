-- ===== src/Catalog/Match/Reader.antt =====
-- A reader of the queries of FTS5 that matchExpression of src/Catalog/FileSearchIndex.cpp writes:
-- strings in quotes, a doubled quote for a quote, a star for a prefix, and AND between them.
use ii_file_provider.Base.{
  ℕ, zero, suc, ◌≤◌, ◌≡◌, refl, sym, ap, ◌∙◌, subst, Bool, true, false, not, ◌&&◌, List, [], ◌∷◌,
  ◌++◌, append_assoc, append-nil, ◌⊎◌, Option, none, some, Bytes, ok, ◌==◌, if◌then◌else◌, length,
  codes, drop, Bool-cases, inl, inr, arith, ltb, OnOk-guard, OnOk-ok, ==→eq,
}
use ii_file_provider.Base.{flatten, length-append, is_some}
use ii_file_provider.Base.Search.{starts_with, find_byte}
use ii_file_provider.Catalog.Match.{
  invalid_argument, is_space, skip_spaces, token, behind_token, add_token, match_loop,
  match_expression,
}

abbrev push : ℕ → Option (Bytes × Bytes) → Option (Bytes × Bytes)
push c none = none
push c (some (text, rest)) = some (c ∷ text, rest)

-- The rest of a string with a star behind it; `seen` says that a quote has just been read.
unfoldable pub phrase : Bool → Bytes → Option (Bytes × Bytes)
phrase seen [] = none
phrase false (c ∷ cs) = elim (c == b'"') [
  | true ↦ phrase true cs
  | false ↦ push c (phrase false cs)
]
phrase true (c ∷ cs) = elim (c == b'"') [
  | true ↦ push b'"' (phrase false cs)
  | false ↦ if c == b'*' then some ([], cs) else none
]

abbrev prepend : Bytes → Option (List Bytes) → Option (List Bytes)
prepend w none = none
prepend w (some ws) = some (w ∷ ws)

-- The strings of a query.
unfoldable pub query : ℕ → Bytes → Option (List Bytes)
query zero text = none
query (suc fuel) [] = none
query (suc fuel) (c ∷ cs) = elim (c == b'"') [
  | false ↦ none
  | true ↦ elim (phrase false cs) [
    | none ↦ none
    | some (w, []) ↦ some (w ∷ [])
    | some (w, d ∷ ds) ↦ elim (starts_with (codes " AND ") (d ∷ ds)) [
      | true ↦ prepend w (query fuel (drop 5 (d ∷ ds)))
      | false ↦ none
    ]
  ]
]

-- The words between the white space of a text.
abbrev pub word : Bytes → Bytes
word [] = []
word (c ∷ cs) = if is_space c then [] else c ∷ word cs

unfoldable pub words : ℕ → Bytes → List Bytes
words zero input = []
words (suc fuel) input = elim (skip_spaces input) [
  | [] ↦ []
  | c ∷ cs ↦ word (c ∷ cs) ∷ words fuel (behind_token (c ∷ cs))
]

-- A word with its quotes doubled.
abbrev doubled : Bytes → Bytes
doubled [] = []
doubled (c ∷ cs) = let rest = doubled cs in if c == b'"' then b'"' ∷ c ∷ rest else c ∷ rest

token-doubled : (input : Bytes) → token input ≡ doubled (word input)
token-doubled [] = refl
token-doubled (c ∷ cs) = elim (Bool-cases (is_space c)) [
  | inl e ↦ rw e refl
  | inr e ↦ elim (Bool-cases (c == b'"')) [
    | inl q ↦ rw (e, q) (ap (λ t. b'"' ∷ c ∷ t) (token-doubled cs))
    | inr q ↦ rw (e, q) (ap (λ t. c ∷ t) (token-doubled cs))
  ]
]

-- How the loop puts words together.
abbrev join : Bytes → List Bytes → Bytes
join result [] = result
join result (w ∷ ws) = join (add_token result (doubled w)) ws

List-cases : (xs : Bytes) → (xs ≡ []) ⊎ ((c : ℕ) × (cs : Bytes) × (xs ≡ c ∷ cs))
List-cases [] = inl refl
List-cases (c ∷ cs) = inr (c, cs, refl)

loop-join :
    (fuel : ℕ) (result input : Bytes)
    → match_loop fuel result input ≡ join result (words fuel input)
unfolding match_loop words
loop-join zero result input = refl
loop-join (suc fuel) result input = elim (List-cases (skip_spaces input)) [
  | inl e ↦ rw (e, match_loop, words) refl
  | inr (c, cs, e) ↦
      rw (e, match_loop, words)
        (ap (λ t. match_loop fuel (add_token result t) (behind_token (c ∷ cs)))
            (token-doubled (c ∷ cs))
          ∙ loop-join fuel (add_token result (doubled (word (c ∷ cs)))) (behind_token (c ∷ cs)))
]

-- The query of words, each but the first behind AND.
abbrev pub printed : List Bytes → Bytes
printed [] = []
printed (w ∷ []) = b'"' ∷ (doubled w ++ codes "\"*")
printed (w ∷ v ∷ ws) = b'"' ∷ (doubled w ++ (codes "\"*" ++ (codes " AND " ++ printed (v ∷ ws))))

abbrev more : List Bytes → Bytes
more [] = []
more (v ∷ vs) = codes " AND " ++ printed (v ∷ vs)

printed-more :
    (w : Bytes) (ws : List Bytes)
    → printed (w ∷ ws) ≡ b'"' ∷ (doubled w ++ (codes "\"*" ++ more ws))
printed-more w [] = refl
printed-more w (v ∷ ws) = refl

join-more : (c : ℕ) (cs : Bytes) (ws : List Bytes) → join (c ∷ cs) ws ≡ (c ∷ cs) ++ more ws
join-more c cs [] = sym (append-nil (c ∷ cs))
join-more c cs (w ∷ ws) =
    join-more c (cs ++ codes " AND " ++ (b'"' ∷ (doubled w ++ codes "\"*"))) ws
    ∙ ap (λ t. c ∷ t)
        (append_assoc (cs ++ codes " AND ") (b'"' ∷ (doubled w ++ codes "\"*")) (more ws)
          ∙ append_assoc cs (codes " AND ") (b'"' ∷ ((doubled w ++ codes "\"*") ++ more ws))
          ∙ ap (λ t. cs ++ (codes " AND " ++ (b'"' ∷ t)))
              (append_assoc (doubled w) (codes "\"*") (more ws))
          ∙ ap (λ t. cs ++ (codes " AND " ++ t)) (sym (printed-more w ws)))

join-printed : (ws : List Bytes) → join [] ws ≡ printed ws
join-printed [] = refl
join-printed (w ∷ ws) =
    join-more b'"' (doubled w ++ codes "\"*") ws
    ∙ ap (λ t. b'"' ∷ t) (append_assoc (doubled w) (codes "\"*") (more ws))
    ∙ sym (printed-more w ws)

phrase-doubled :
    (w rest : Bytes) → phrase false (doubled w ++ (codes "\"*" ++ rest)) ≡ some (w, rest)
unfolding phrase
phrase-doubled [] rest = refl
phrase-doubled (c ∷ cs) rest = elim (Bool-cases (c == b'"')) [
  | inl q ↦
      rw (q, phrase, q)
        (ap (push b'"') (phrase-doubled cs rest)
          ∙ ap (λ x. some (x ∷ cs, rest)) (sym (==→eq c b'"' q)))
  | inr q ↦ rw (q, phrase, q) (ap (push c) (phrase-doubled cs rest))
]

query-printed :
    (fuel : ℕ) (w : Bytes) (ws : List Bytes)
    → length ws ≤ fuel
    → query (suc fuel) (printed (w ∷ ws)) ≡ some (w ∷ ws)
unfolding query
query-printed fuel w [] h = rw (phrase-doubled w [], query) refl
query-printed zero w (v ∷ ws) h = absurd (omega arith)
query-printed (suc fuel) w (v ∷ ws) h =
    rw (phrase-doubled w (codes " AND " ++ printed (v ∷ ws)), query)
      (ap (prepend w) (query-printed fuel v ws (omega arith)))

-- A blank query asks for nothing.
unfoldable pub read_query : Bytes → Option (List Bytes)
unfolding query
read_query [] = some []
read_query (c ∷ cs) = query (suc (length cs)) (c ∷ cs)

length-more : (ws : List Bytes) → length ws ≤ length (more ws)
length-more [] = omega arith
length-more (w ∷ ws) =
    let rest = length-more ws in
    let whole = ap length (printed-more w ws) in
    let text = length-append (doubled w) (codes "\"*" ++ more ws) in
    omega (arith, rest, whole, text)

length-behind_first :
    (w : Bytes) (ws : List Bytes) → length ws ≤ length (doubled w ++ (codes "\"*" ++ more ws))
length-behind_first w ws =
    let rest = length-more ws in
    let text = length-append (doubled w) (codes "\"*" ++ more ws) in omega (arith, rest, text)

read_query-printed : (ws : List Bytes) → read_query (printed ws) ≡ some ws
unfolding read_query
read_query-printed [] = refl
read_query-printed (w ∷ ws) =
    ap read_query (printed-more w ws)
    ∙ ap (query (suc (length (doubled w ++ (codes "\"*" ++ more ws))))) (sym (printed-more w ws))
    ∙ query-printed (length (doubled w ++ (codes "\"*" ++ more ws))) w ws (length-behind_first w ws)

-- The characters of a text but its white space.
abbrev pub inked : Bytes → Bytes
inked [] = []
inked (c ∷ cs) = let rest = inked cs in if is_space c then rest else c ∷ rest

inked-skip_spaces : (input : Bytes) → inked (skip_spaces input) ≡ inked input
inked-skip_spaces [] = refl
inked-skip_spaces (c ∷ cs) = elim (Bool-cases (is_space c)) [
  | inl e ↦ rw e (inked-skip_spaces cs)
  | inr e ↦ rw (e, e) refl
]

word-behind_token : (input : Bytes) → word input ++ inked (behind_token input) ≡ inked input
word-behind_token [] = refl
word-behind_token (c ∷ cs) = elim (Bool-cases (is_space c)) [
  | inl e ↦ rw (e, e) refl
  | inr e ↦ rw e (ap (λ t. c ∷ t) (word-behind_token cs))
]

length-skip_spaces : (input : Bytes) → length (skip_spaces input) ≤ length input
length-skip_spaces [] = omega arith
length-skip_spaces (c ∷ cs) = elim (Bool-cases (is_space c)) [
  | inl e ↦ let h = length-skip_spaces cs in rw e (omega (arith, h))
  | inr e ↦ rw e (omega arith)
]

length-behind_token : (input : Bytes) → length (behind_token input) ≤ length input
length-behind_token [] = omega arith
length-behind_token (c ∷ cs) = elim (Bool-cases (is_space c)) [
  | inl e ↦ rw e (omega arith)
  | inr e ↦ let h = length-behind_token cs in rw e (omega (arith, h))
]

skip_spaces-head :
    (input : Bytes) (c : ℕ) (cs : Bytes) → skip_spaces input ≡ c ∷ cs → is_space c ≡ false
skip_spaces-head [] c cs e = cc
skip_spaces-head (x ∷ xs) c cs e = elim (Bool-cases (is_space x)) [
  | inl space ↦ skip_spaces-head xs c cs (rw space at e)
  | inr ink ↦ subst (λ y. is_space y ≡ false) (head-inj (rw ink at e)) ink
]
  where
    head-inj : {a b : ℕ} {xs ys : Bytes} → a ∷ xs ≡ b ∷ ys → a ≡ b
    head-inj p = cc

flatten-words :
    (fuel : ℕ) (input : Bytes) → length input ≤ fuel → flatten (words fuel input) ≡ inked input
unfolding words
flatten-words zero [] h = refl
flatten-words zero (c ∷ cs) h = absurd (omega arith)
flatten-words (suc fuel) input h = elim (List-cases (skip_spaces input)) [
  | inl e ↦ rw (e, words) (sym (ap inked e) ∙ inked-skip_spaces input)
  | inr (c, cs, e) ↦
      let ink = skip_spaces-head input c cs e in
      let whole = length-skip_spaces input in
      let short = ap length e in
      let left = length-behind_token cs in
      let behind : behind_token (c ∷ cs) ≡ behind_token cs = rw ink refl in
      let later = flatten-words fuel (behind_token cs) (omega (arith, h, whole, short, left)) in
      rw (e, words)
        (ap (λ t. word (c ∷ cs) ++ flatten (words fuel t)) behind
          ∙ ap (λ t. word (c ∷ cs) ++ t) later
          ∙ ap (λ t. word (c ∷ cs) ++ inked t) (sym behind)
          ∙ word-behind_token (c ∷ cs)
          ∙ sym (ap inked e)
          ∙ inked-skip_spaces input)
]

-- A reader of FTS5 queries gets from the query of a text exactly the words of the text, whatever
-- quotes and operators they hold; together the words are the text without its white space.
pub match_expression-words :
    (input expression : Bytes)
    → match_expression input ≡ ok expression
    → (read_query expression ≡ some (words (length input) input))
      × (flatten (words (length input) input) ≡ inked input)
unfolding match_expression
match_expression-words input expression e = (
  OnOk-ok (λ x. read_query x ≡ some (words (length input) input)) _ expression
      (OnOk-guard (λ x. read_query x ≡ some (words (length input) input))
        (not (ltb 4096 (length input)) && not (is_some (find_byte 0 input))) invalid_argument _
        λ g.
          ap read_query
            (loop-join (length input) [] input ∙ join-printed (words (length input) input))
          ∙ read_query-printed (words (length input) input))
      e,
  flatten-words (length input) input (omega arith),
)
