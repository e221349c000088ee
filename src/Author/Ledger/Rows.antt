-- ===== src/Author/Ledger/Rows.antt =====
-- The row that setAuthor of Native/src/Core/Authorship.cpp leaves for its author.
use ii_file_provider.Base.{
  ◌≡◌, refl, sym, ap, ap₂, Bool, true, false, not, ◌&&◌, List, [], ◌∷◌, ◌++◌, Bytes, bytes_eq,
  bytes_eq_iff, bytes_eq_refl, ltb, find, some, none, Option-cases, Bool-cases, inl, inr, ok, OnOk,
  OnOk-after, OnOk-guard, OnOk-ok, OnOk-map, length, leb, ◌==◌,
}
use ii_file_provider.Author.Errors.{invalid_argument, overflow_error, length_error}
use ii_file_provider.Author.Time.{timestamp}
use ii_file_provider.Author.Unicode.{Utf8proc}
use ii_file_provider.Author.Links.{FileLink, links_eq, link_eq, validated_links}
use ii_file_provider.Author.Links.Distinct.{and-both, link_eq-eq}
use ii_file_provider.Author.Ledger.{
  FileAuthor, Record, Authorship, maximum_authors, maximum_bytes, maximum_revision, dump_text,
  key_for, record_change, rebuild_dump, with_dump, changed, stamp_row, stamped, later_of,
}
use ii_file_provider.Author.Ledger.Changes.{
  has_key, edited, with_profile, replace_profile, new_record, recorded, set_row, set_author,
}
use ii_file_provider.Author.Ledger.Recorded.{recorded-OnOk}

record_change-changed :
    (P : Authorship → Type 0) (l : Authorship) (at : Bytes)
    → ((modified : Bytes) → P (with_dump (changed l modified) (dump_text (changed l modified))))
    → OnOk P (record_change l at)
unfolding record_change rebuild_dump
record_change-changed P l at h = OnOk-after P (timestamp at) _ λ stamp e.
    OnOk-guard P (not (l.revision == maximum_revision)) overflow_error _ λ g.
      let next = changed l (later_of l.modified_at stamp) in
      OnOk-guard P (leb (length (dump_text next)) maximum_bytes) length_error _
        λ f. h (later_of l.modified_at stamp)

find-replaced :
    (key profile modified : Bytes) (rows : List Record) (r : Record)
    → find (has_key key) rows ≡ some r
    → find (has_key key) (stamp_row key modified (replace_profile key profile rows))
      ≡ some (stamped modified (with_profile profile r))
unfolding find stamp_row replace_profile
find-replaced key profile modified [] r e = cc
find-replaced key profile modified (x ∷ xs) r e = elim (Bool-cases (has_key key x)) [
  | inl hit ↦
      rw (hit, hit, hit)
        (ap (λ y. some (stamped modified (with_profile profile y))) (some-inj (rw hit at e)))
  | inr miss ↦ rw (miss, miss, miss) (find-replaced key profile modified xs r (rw miss at e))
]
  where
    some-inj : {a b : Record} → some a ≡ some b → a ≡ b
    some-inj e = cc

find-appended :
    (modified : Bytes) (rows : List Record) (r : Record)
    → find (has_key r.key) rows ≡ none
    → find (has_key r.key) (stamp_row r.key modified (rows ++ r ∷ [])) ≡ some (stamped modified r)
unfolding find stamp_row
find-appended modified [] r e = rw (bytes_eq_refl r.key, bytes_eq_refl r.key) refl
find-appended modified (x ∷ xs) r e = elim (Bool-cases (has_key r.key x)) [
  | inl hit ↦ absurd (some≢none (rw hit at e))
  | inr miss ↦ rw (miss, miss) (find-appended modified xs r (rw miss at e))
]
  where
    some≢none : ¬ (some x ≡ none)
    some≢none p = cc

-- The stamp of a row that has just been changed.
abbrev pub StampedNow : Bytes → Bool → Record → Authorship → Type 0
StampedNow key true r next = (r.last_changed_at ≡ next.modified_at) × (next.last_author ≡ key)
StampedNow key false r next = Unit

-- What a call for `author` with the links `valid` leaves.
pub record Holds (author : FileAuthor) (key : Bytes) (valid : List FileLink)
    (result : Bool × Authorship) : Type 0 where
  pub row : Record
  pub found : find (has_key key) result.1.authors ≡ some row
  pub profile : row.profile ≡ author.profile
  pub stamp : StampedNow key (result.0) row (result.1)
  pub active : result.1.active_author ≡ key
  pub links : result.1.links ≡ valid

links_eq-eq : (xs ys : List FileLink) → links_eq xs ys ≡ true → xs ≡ ys
unfolding links_eq
links_eq-eq [] [] e = refl
links_eq-eq [] (y ∷ ys) e = cc
links_eq-eq (x ∷ xs) [] e = cc
links_eq-eq (x ∷ xs) (y ∷ ys) e =
    let s = and-both (link_eq x y) (links_eq xs ys) e in
    ap₂ (λ a b. a ∷ b) (link_eq-eq x y s.0) (links_eq-eq xs ys s.1)

replaced-Holds :
    (l : Authorship) (author : FileAuthor) (key : Bytes) (valid : List FileLink) (at : Bytes)
    (r : Record)
    → find (has_key key) l.authors ≡ some r
    → OnOk
        (Holds author key valid)
        (recorded (edited l key (replace_profile key author.profile l.authors) valid) at)
replaced-Holds l author key valid at r found =
    let next = edited l key (replace_profile key author.profile l.authors) valid in
    recorded-OnOk (Holds author key valid) next at (
      record_change-changed (λ after. Holds author key valid (true, after)) next at
        λ modified. record {
          row = stamped modified (with_profile author.profile r);
          found = find-replaced key author.profile modified l.authors r found;
          profile = refl;
          stamp = (refl, refl);
          active = refl;
          links = refl;
        })

appended-Holds :
    (l : Authorship) (author : FileAuthor) (key : Bytes) (valid : List FileLink) (at : Bytes)
    → find (has_key key) l.authors ≡ none
    → OnOk
        (Holds author key valid)
        (recorded (edited l key (l.authors ++ new_record key author.profile ∷ []) valid) at)
appended-Holds l author key valid at missing =
    let next = edited l key (l.authors ++ new_record key author.profile ∷ []) valid in
    recorded-OnOk (Holds author key valid) next at (
      record_change-changed (λ after. Holds author key valid (true, after)) next at
        λ modified. record {
          row = stamped modified (new_record key author.profile);
          found = find-appended modified l.authors (new_record key author.profile) missing;
          profile = refl;
          stamp = (refl, refl);
          active = refl;
          links = refl;
        })

set_row-Holds :
    (l : Authorship) (author : FileAuthor) (key : Bytes) (valid : List FileLink) (at : Bytes)
    → OnOk (Holds author key valid) (set_row l author key valid at (find (has_key key) l.authors))
unfolding set_row
set_row-Holds l author key valid at = elim (Option-cases (find (has_key key) l.authors)) [
  | inl missing ↦ rw missing (
      OnOk-guard (Holds author key valid) (ltb (length l.authors) maximum_authors) invalid_argument
        _ λ g. appended-Holds l author key valid at missing)
  | inr (r, found) ↦
      rw found (elim (Bool-cases (bytes_eq r.profile author.profile && links_eq valid l.links)) [
        | inl same ↦
            let s = and-both (bytes_eq r.profile author.profile) (links_eq valid l.links) same in
            rw same (record {
              row = r;
              found = found;
              profile = (bytes_eq_iff r.profile author.profile).0 s.0;
              stamp = tt;
              active = refl;
              links = sym (links_eq-eq valid l.links s.1);
            })
        | inr other ↦ rw other (replaced-Holds l author key valid at r found)
      ])
]

-- Behind a call of `setAuthor` that returns, the author is the active one, its row holds the
-- profile of the call, and the links are those that `validatedLinks` makes of the call's; if it
-- returns `true`, the row's last change is the ledger's, and the author is the last one.
pub set_author-Holds :
    (u : Utf8proc) (l : Authorship) (author : FileAuthor) (links : List FileLink) (at : Bytes)
    → (result : Bool × Authorship) → set_author u l author links at ≡ ok result
    → (key : Bytes) × (valid : List FileLink) × (key_for author ≡ ok key)
      × (validated_links u links ≡ ok valid)
      × Holds author key valid result
unfolding set_author
set_author-Holds u l author links at result e =
    OnOk-ok Wanted _ result
      (OnOk-after Wanted (validated_links u links) _ λ valid v.
        OnOk-after Wanted (key_for author) _ λ key k.
          OnOk-map (Holds author key valid) Wanted
            (set_row l author key valid at (find (has_key key) l.authors))
            (λ r h. (key, valid, k, v, h)) (set_row-Holds l author key valid at))
      e
  where
    Wanted : Bool × Authorship → Type 0
    Wanted r =
        (key : Bytes) × (valid : List FileLink) × (key_for author ≡ ok key)
        × (validated_links u links ≡ ok valid)
        × Holds author key valid r
