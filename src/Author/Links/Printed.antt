-- ===== src/Author/Links/Printed.antt =====
-- FileLink::fromString of Native/src/Core/Authorship.cpp on an entry that is put together.
use ii_file_provider.Base.{
  ℕ, zero, suc, ◌+◌, ◌-◌, ◌≤◌, ◌≡◌, ◌≢◌, refl, sym, ap, ap₂, ◌∙◌, Bool, true, false, ◌&&◌, ◌||◌, [],
  ◌∷◌, ◌++◌, append_assoc, Option, none, some, Bytes, bytes_eq, bytes_eq_refl, leb, ◌==◌, length,
  length-append, take, drop, take-append_left, arith, Bool-cases, inl, inr,
}
use ii_file_provider.Base.Search.{find_byte, ends_with, next_index}
use ii_file_provider.Author.Unicode.{Utf8proc}
use ii_file_provider.Author.Links.{create, from_string}

abbrev pub entry : Bytes → Bytes → Bytes
entry name url = b'[' ∷ name ++ (b'|' ∷ (url ++ b']' ∷ []))

drop-append_left : (n : ℕ) (xs ys : Bytes) → n ≡ length xs → drop n (xs ++ ys) ≡ ys
drop-append_left zero [] ys e = refl
drop-append_left zero (x ∷ xs) ys e = absurd (omega arith)
drop-append_left (suc n) [] ys e = absurd (omega arith)
drop-append_left (suc n) (x ∷ xs) ys e = drop-append_left n xs ys (omega arith)

find_byte-append :
    (c : ℕ) (xs rest : Bytes)
    → find_byte c xs ≡ none
    → find_byte c (xs ++ c ∷ rest) ≡ some (length xs)
unfolding find_byte
find_byte-append c [] rest e = ground arith
find_byte-append c (x ∷ xs) rest e = elim (Bool-cases (x == c)) [
  | inl hit ↦ absurd (some≢none (rw hit at e))
  | inr miss ↦
      rw miss (ap next_index (find_byte-append c xs rest (later (find_byte c xs) (rw miss at e))))
]
  where
    some≢none : {i : ℕ} → ¬ (some i ≡ none)
    some≢none p = cc

    later : (o : Option ℕ) → next_index o ≡ none → o ≡ none
    later none p = refl
    later (some i) p = cc

and-true : (a b : Bool) → a ≡ true → b ≡ true → a && b ≡ true
and-true a b p q = ground arith

ends_with-last : (xs : Bytes) (c : ℕ) → ends_with (c ∷ []) (xs ++ c ∷ []) ≡ true
ends_with-last xs c =
    let long = length-append xs (c ∷ []) in
    let last = drop-append_left (length (xs ++ c ∷ []) - 1) xs (c ∷ []) (omega (arith, long)) in
    and-true _ _ (one_long (length (xs ++ c ∷ [])) (length xs) long)
      (ap (λ ys. bytes_eq ys (c ∷ [])) last ∙ bytes_eq_refl (c ∷ []))
  where
    one_long : (n m : ℕ) → n ≡ m + 1 → leb 1 n ≡ true
    one_long n m e = ground arith

length-entry : (name url : Bytes) → length (entry name url) ≡ length name + length url + 3
length-entry name url =
    let inner = length-append url (b']' ∷ []) in
    let whole = length-append name (b'|' ∷ (url ++ b']' ∷ [])) in omega (arith, inner, whole)

entry-closed : (name url : Bytes) → ends_with (b']' ∷ []) (entry name url) ≡ true
entry-closed name url =
    ap (ends_with (b']' ∷ [])) (sym (append_assoc (b'[' ∷ name) (b'|' ∷ url) (b']' ∷ [])))
    ∙ ends_with-last ((b'[' ∷ name) ++ b'|' ∷ url) b']'

entry-name :
    (name url : Bytes) → take (suc (length name) - 1) (name ++ (b'|' ∷ (url ++ b']' ∷ []))) ≡ name
entry-name name url = take-append_left (suc (length name) - 1) name _ (omega arith)

entry-url :
    (name url : Bytes)
    → take
        (length (entry name url) - suc (length name) - 2)
        (drop (suc (length name) + 1) (entry name url))
      ≡ url
entry-url name url =
    let long = length-entry name url in
    let split = sym (append_assoc (b'[' ∷ name) (b'|' ∷ []) (url ++ b']' ∷ [])) in
    let before = length-append (b'[' ∷ name) (b'|' ∷ []) in
    ap (take (length (entry name url) - suc (length name) - 2)) (
      ap (drop (suc (length name) + 1)) split
      ∙ drop-append_left (suc (length name) + 1) ((b'[' ∷ name) ++ b'|' ∷ []) (url ++ b']' ∷ [])
          (omega (arith, before)))
    ∙ take-append_left (length (entry name url) - suc (length name) - 2) url (b']' ∷ [])
        (omega (arith, long))

inside : (n a b : ℕ) → 1 ≤ a → 1 ≤ b → n ≡ a + b + 3 → leb (suc a) 1 || leb (n - 2) (suc a) ≡ false
inside n a b ha hb e = ground arith

some-length : (xs : Bytes) → xs ≢ [] → 1 ≤ length xs
some-length [] n = absurd (n refl)
some-length (x ∷ xs) n = omega arith

-- An entry `[name|url]` is read as the link of its two parts, if neither is empty and the name has no
-- bar; the address may have bars and brackets.
pub from_string-entry :
    (u : Utf8proc) (name url : Bytes)
    → find_byte b'|' name ≡ none
    → name ≢ []
    → url ≢ []
    → from_string u (entry name url) ≡ create u name url
unfolding from_string find_byte
from_string-entry u name url bar n m =
    let found : find_byte b'|' (entry name url) ≡ some (suc (length name)) =
      ap next_index (find_byte-append b'|' name (url ++ b']' ∷ []) bar) in
    let within =
      inside (length (entry name url)) (length name) (length url) (some-length name n)
        (some-length url m) (length-entry name url) in
    rw (entry-closed name url, found, within)
      (ap₂ (create u) (entry-name name url) (entry-url name url))
