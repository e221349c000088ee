-- ===== src/Author/Links.antt =====
-- FileLink and validatedLinks of Native/src/Core/Authorship.cpp.
pub mod Distinct
pub mod Printed
use ii_file_provider.Base.{
  ℕ, ◌+◌, ◌-◌, Bool, true, false, not, ◌&&◌, ◌||◌, List, [], ◌∷◌, ◌++◌, Option, none, some, Bytes,
  bytes_eq, ltb, leb, if◌then◌else◌, length, drop, take, ok, err, ◌>>=◌, ◌>>◌, or_fail, guard,
  is_some, get_or, ◌==◌, OnOk, subst, ◌≡◌,
}
use ii_file_provider.Base.Search.{find_byte, ends_with}
use ii_file_provider.Author.Errors.{Error, invalid_argument, Checked}
use ii_file_provider.Author.Unicode.{Utf8proc, clean}
use ii_file_provider.Author.Uri.{valid_uri}

pub record FileLink : Type 0 where
  pub name : Bytes
  pub url : Bytes

abbrev pub file_link : Bytes → Bytes → FileLink
file_link name url = record { name = name; url = url }

unfoldable pub link_eq : FileLink → FileLink → Bool
link_eq a b = bytes_eq a.name b.name && bytes_eq a.url b.url

-- `std::find(…) != result.end()`.
unfoldable pub has_link : FileLink → List FileLink → Bool
unfolding link_eq
has_link l [] = false
has_link l (x ∷ xs) = link_eq x l || has_link l xs

-- `next.links_ == links_`.
unfoldable pub links_eq : List FileLink → List FileLink → Bool
unfolding link_eq
links_eq [] [] = true
links_eq (x ∷ xs) (y ∷ ys) = link_eq x y && links_eq xs ys
links_eq _ _ = false

abbrev pub maximum_links : ℕ
maximum_links = 64

-- The `catch` of `create`.
abbrev pub to_option {ℓ} : {A : Type ℓ} → Checked A → Option A
to_option (ok a) = some a
to_option (err e) = none

some-inj {ℓ} : {A : Type ℓ} {a b : A} → some a ≡ some b → a ≡ b
some-inj e = cc

-- A value that is there is that of a result without error.
pub to_option-OnOk {ℓ κ} :
    {A : Type ℓ} (P : A → Type κ) (m : Checked A) {a : A} → OnOk P m → to_option m ≡ some a → P a
to_option-OnOk P (ok b) h e = subst P (some-inj e) h
to_option-OnOk P (err x) h e = cc

module _ (u : Utf8proc) where
  unfoldable pub create : Bytes → Bytes → Option FileLink
  create name url = to_option (do
    cleaned ← clean u name 160 true false
    guard (not (is_some (find_byte b'|' cleaned)) && valid_uri u url false) invalid_argument
    ok (file_link cleaned url))

  abbrev pub split_entry : Bytes → Option ℕ → Option FileLink
  split_entry entry none = none
  split_entry entry (some sep) =
      if leb sep 1 || leb (length entry - 2) sep
      then none
      else create (take (sep - 1) (drop 1 entry))
          (take (length entry - sep - 2) (drop (sep + 1) entry))

  unfoldable pub from_string : Bytes → Option FileLink
  from_string entry =
      if not (get_or entry 0 0 == b'[') || not (ends_with (b']' ∷ []) entry)
      then none
      else split_entry entry (find_byte b'|' entry)

  -- The loop, behind the links of `result`.
  unfoldable pub accept_links : List FileLink → List FileLink → Checked (List FileLink)
  accept_links result [] = ok result
  accept_links result (l ∷ ls) = do
    parsed ← or_fail (create l.name l.url) invalid_argument
    guard (not (has_link parsed result)) invalid_argument
    accept_links (result ++ parsed ∷ []) ls

  unfoldable pub validated_links : List FileLink → Checked (List FileLink)
  unfolding accept_links
  validated_links links = do
    guard (leb (length links) maximum_links) invalid_argument
    accept_links [] links

  -- The loop of `setLinksFromStrings`.
  unfoldable pub parse_links : List Bytes → Checked (List FileLink)
  parse_links [] = ok []
  parse_links (entry ∷ entries) = do
    parsed ← or_fail (from_string entry) invalid_argument
    rest ← parse_links entries
    ok (parsed ∷ rest)
