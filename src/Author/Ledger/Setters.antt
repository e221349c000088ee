-- ===== src/Author/Ledger/Setters.antt =====
-- setAuthor, setLinks and setLinksFromStrings of Native/src/Core/Authorship.cpp on well-formed
-- ledgers.
use ii_file_provider.Base.{
  ℕ, ◌+◌, ◌≤◌, ◌<◌, ◌≡◌, refl, sym, ap, subst, ◌∙◌, true, false, ◌&&◌, List, [], ◌∷◌, ◌++◌,
  append-nil, Bytes, bytes_eq, ltb, ltb→lt, length, length-append, find, All-append, Distinct,
  Distinct-snoc, is_some, none, Option-cases, inl, inr, arith, OnOk, OnOk-after, OnOk-guard,
}
use ii_file_provider.Author.Errors.{invalid_argument}
use ii_file_provider.Author.Unicode.{Utf8proc}
use ii_file_provider.Author.Links.{FileLink, links_eq, validated_links, parse_links}
use ii_file_provider.Author.Ledger.{
  FileAuthor, Authorship, maximum_authors, key_for, clear_active_author,
}
use ii_file_provider.Author.Ledger.Changes.{
  has_key, activate, edited, replace_profile, new_record, recorded, set_row, set_author, set_links,
  set_links_from_strings,
}
use ii_file_provider.Author.Ledger.Kept.{IsEdited}
use ii_file_provider.Author.Ledger.Valid.{
  keys, AreLinks, IsLedger, Pending, keys-replace_profile, keys-append,
}
use ii_file_provider.Author.Ledger.Recorded.{
  Kept, waiting, if-OnOk, dump_text-activate, IsEdited-IsLedger, recorded-Kept, AreLinks-validated,
  IsEdited-replaced, missing-fresh, found-last,
}

one_more : (n m : ℕ) → n < 256 → m ≡ n + 1 → m ≤ maximum_authors
one_more n m h e = omega arith

-- A new key gets a row behind the others.
IsEdited-appended :
    (u : Utf8proc) (l : Authorship) (key profile : Bytes) (valid : List FileLink)
    → IsLedger u l
    → find (has_key key) l.authors ≡ none
    → length l.authors < maximum_authors
    → AreLinks u valid
    → IsEdited u (edited l key (l.authors ++ new_record key profile ∷ []) valid)
IsEdited-appended u l key profile valid h missing room linked = record {
  bounded = h.bounded;
  few = one_more (length l.authors) _ room (length-append l.authors (new_record key profile ∷ []));
  keyed =
      subst Distinct (sym (keys-append l.authors (new_record key profile ∷ [])))
        (Distinct-snoc (keys l.authors) key h.keyed (missing-fresh key l.authors missing));
  pending =
      All-append (Pending key l.modified_at) l.authors (new_record key profile ∷ [])
        (waiting key l.modified_at l.authors h.stamps) (inl (refl, refl), tt);
  active_known = inr (found-last l.authors (new_record key profile));
  linked = linked;
}

activate-Kept :
    (u : Utf8proc) (l : Authorship) (at key : Bytes)
    → IsLedger u l
    → is_some (find (has_key key) l.authors) ≡ true
    → Kept u at l (false, activate l key)
activate-Kept u l at key h known = (
  record {
    bounded = h.bounded;
    few = h.few;
    keyed = h.keyed;
    stamps = h.stamps;
    last_known = h.last_known;
    active_known = inr known;
    linked = h.linked;
    text = h.text ∙ sym (dump_text-activate l key);
    fits = h.fits;
    untouched = h.untouched;
  },
  (key, refl),
)

set_row-Kept :
    (u : Utf8proc) (l : Authorship) (author : FileAuthor) (key : Bytes) (valid : List FileLink)
    → (at : Bytes) → IsLedger u l
    → AreLinks u valid
    → OnOk (Kept u at l) (set_row l author key valid at (find (has_key key) l.authors))
unfolding set_row
set_row-Kept u l author key valid at h linked = elim (Option-cases (find (has_key key) l.authors)) [
  | inl missing ↦ rw missing (
      OnOk-guard (Kept u at l) (ltb (length l.authors) maximum_authors) invalid_argument _ λ g.
        recorded-Kept u l key (l.authors ++ new_record key author.profile ∷ []) valid at (key ∷ [])
          (IsEdited-appended u l key author.profile valid h missing
            (ltb→lt (length l.authors) maximum_authors g) linked)
          (keys-append l.authors (new_record key author.profile ∷ [])))
  | inr (r, found) ↦
      let known = ap is_some found in
      rw found (
        if-OnOk (Kept u at l) (bytes_eq r.profile author.profile && links_eq valid l.links) _ _
          (activate-Kept u l at key h known)
          (recorded-Kept u l key (replace_profile key author.profile l.authors) valid at []
            (IsEdited-replaced u l key author.profile valid h known linked)
            (keys-replace_profile key author.profile l.authors
              ∙ sym (append-nil (keys l.authors)))))
]

-- `setAuthor` keeps a ledger well-formed on every path that returns.
pub set_author-Kept :
    (u : Utf8proc) (l : Authorship) (author : FileAuthor) (links : List FileLink) (at : Bytes)
    → IsLedger u l
    → OnOk (Kept u at l) (set_author u l author links at)
unfolding set_author
set_author-Kept u l author links at h =
    OnOk-after (Kept u at l) (validated_links u links) _ λ valid e.
      OnOk-after (Kept u at l) (key_for author) _
        λ key k. set_row-Kept u l author key valid at h (AreLinks-validated u links valid e)

pub set_links-Kept :
    (u : Utf8proc) (l : Authorship) (links : List FileLink) (at : Bytes)
    → IsLedger u l
    → OnOk (Kept u at l) (set_links u l links at)
unfolding set_links
set_links-Kept u l links at h = OnOk-after (Kept u at l) (validated_links u links) _ λ parsed e.
    if-OnOk (Kept u at l) (links_eq parsed l.links) _ _ (h, (l.active_author, refl))
      (recorded-Kept u l l.active_author l.authors parsed at []
        (IsEdited-IsLedger u l parsed h (AreLinks-validated u links parsed e))
        (sym (append-nil (keys l.authors))))

pub set_links_from_strings-Kept :
    (u : Utf8proc) (l : Authorship) (entries : List Bytes) (at : Bytes)
    → IsLedger u l
    → OnOk (Kept u at l) (set_links_from_strings u l entries at)
unfolding set_links_from_strings
set_links_from_strings-Kept u l entries at h =
    OnOk-after (Kept u at l) (parse_links u entries) _ λ links e. set_links-Kept u l links at h

pub recorded_only-Kept :
    (u : Utf8proc) (l : Authorship) (at : Bytes) → IsLedger u l → OnOk (Kept u at l) (recorded l at)
recorded_only-Kept u l at h =
    recorded-Kept u l l.active_author l.authors l.links at []
      (IsEdited-IsLedger u l l.links h h.linked) (sym (append-nil (keys l.authors)))

pub clear_active_author-IsLedger :
    (u : Utf8proc) (l : Authorship) → IsLedger u l → IsLedger u (clear_active_author l)
clear_active_author-IsLedger u l h = record {
  bounded = h.bounded;
  few = h.few;
  keyed = h.keyed;
  stamps = h.stamps;
  last_known = h.last_known;
  active_known = inl refl;
  linked = h.linked;
  text = h.text ∙ sym (dump_text-activate l []);
  fits = h.fits;
  untouched = h.untouched;
}
