-- ===== src/Author/Ledger/FromDump.antt =====
-- What Authorship::fromDump (Native/src/Core/Authorship.cpp) lets through.
use ii_file_provider.Base.{
  OnOk-from, ℕ, ◌+◌, ◌≤◌, ◌≡◌, refl, sym, subst, inl, inr, Bool, true, false, not, ◌&&◌, ◌||◌, List,
  [], ◌∷◌, some, Bytes, leb, leb→le, ◌==◌, length, find, is_some, ok, OnOk, OnOk-after, OnOk-guard,
  OnOk-bind, or_fail, arith, digits_value, codes, guard, if◌then◌else◌,
}
use ii_file_provider.Author.Errors.{invalid_argument, Checked}
use ii_file_provider.Author.Unicode.{Utf8proc}
use ii_file_provider.Author.Links.{FileLink, to_option-OnOk, validated_links, maximum_links}
use ii_file_provider.Author.Links.Distinct.{validated_links-IsAccepted}
use ii_file_provider.Author.Json.{
  Json, JsonLibrary, null, boolean, number, string, array, object, count, member_at, as_array, text,
  optional_date,
}
use ii_file_provider.Author.Patterns.{revision_pattern}
use ii_file_provider.Author.Details.{Zones}
use ii_file_provider.Author.Ledger.{
  Record, Authorship, maximum_revision, maximum_bytes, maximum_authors, rebuild_dump,
}
use ii_file_provider.Author.Ledger.Changes.{has_key}
use ii_file_provider.Author.Ledger.Valid.{Known, AreLinks, IsLedger}
use ii_file_provider.Author.Ledger.Kept.{rebuild_dump-with_dump, dump_text-with_dump}
use ii_file_provider.Author.Ledger.Histories.{Call, run, run-Good}
use ii_file_provider.Author.Ledger.Reading.{
  read_ledger, last_of, untouched, revision_of, read_rows, read_links, schema_of, check_schema,
  check_roles, schema_links, links_of, read_ledger_of, from_dump,
}
use ii_file_provider.Author.Ledger.Entries.{Rows, read_rows-Rows}

empty_length : {A : Type 0} (xs : List A) → length xs == 0 ≡ true → xs ≡ []
empty_length [] e = refl
empty_length (x ∷ xs) e = absurd (ground arith)

three_true : (a b c : Bool) → a && (b && c) ≡ true → (a ≡ true) × (b ≡ true) × (c ≡ true)
three_true a b c e = (ground arith, ground arith, ground arith)

unless : (n : ℕ) (b : Bool) → not (n == 0) || b ≡ true → n ≡ 0 → b ≡ true
unless n b e z = ground arith

nothing_done :
    (revision : ℕ) (modified : Bytes) (rows : List Record) (links : List FileLink)
    → untouched revision modified rows links ≡ true
    → revision ≡ 0
    → (rows ≡ []) × (links ≡ []) × (modified ≡ [])
nothing_done revision modified rows links quiet z =
    let all =
      three_true (length rows == 0) (length links == 0) (length modified == 0)
        (unless revision _ quiet z) in
    (empty_length rows all.0, empty_length links all.1, empty_length modified all.2)

bounded_count : (n : ℕ) → leb n maximum_authors ≡ true → 0 + n ≤ maximum_authors
bounded_count n few = let h = leb→le n maximum_authors few in omega arith

module _ (u : Utf8proc) (json : JsonLibrary) (zones : Zones) where
  accepted : (links : List FileLink) → OnOk (AreLinks u) (validated_links u links)
  accepted links = OnOk-from (AreLinks u) (validated_links u links) λ found e.
      let h = validated_links-IsAccepted u links found e in
      record {
        few = subst (λ n. n ≤ maximum_links) (sym h.1) h.2;
        allow = h.0.allow;
        differ = h.0.differ;
      }

  schema_links-AreLinks : (value : Json) → OnOk (AreLinks u) (schema_links u json zones value)
  unfolding schema_links
  schema_links-AreLinks value =
      let P = AreLinks u in
      OnOk-after P (member_at value (codes "links")) _ λ given _.
        OnOk-after P (as_array given) _ λ items _.
          OnOk-after P (guard (leb (count items) maximum_links) invalid_argument) _
            λ _ _. OnOk-after P (read_links u json zones items) _ λ links _. accepted links

  either_links :
      (test : Bool) (m : Checked (List FileLink))
      → OnOk (AreLinks u) m
      → OnOk (AreLinks u) (if test then m else ok [])
  either_links true m h = h
  either_links false m h = record { few = omega arith; allow = tt; differ = tt }

  links_of-AreLinks :
      (schema : ℕ) (value : Json) → OnOk (AreLinks u) (links_of u json zones schema value)
  unfolding links_of
  links_of-AreLinks schema value =
      either_links (schema == 3) (schema_links u json zones value) (schema_links-AreLinks value)

  last_of-Known :
      (rows : List Record) (named : Json) → OnOk (λ key. Known key rows) (last_of rows named)
  last_of-Known rows null = inl refl
  last_of-Known rows (string key) =
      OnOk-guard (λ k. Known k rows) (is_some (find (has_key key) rows)) _ _ λ found. inr found
  last_of-Known rows (boolean b) = tt
  last_of-Known rows (number n) = tt
  last_of-Known rows (array items) = tt
  last_of-Known rows (object members) = tt

  revision_of-bounded : (raw : Bytes) → OnOk (λ n. n ≤ maximum_revision) (revision_of raw)
  unfolding revision_of
  revision_of-bounded raw =
      OnOk-guard (λ n. n ≤ maximum_revision) (revision_pattern raw) _ _
        λ _.
          OnOk-guard (λ n. n ≤ maximum_revision) (leb (digits_value 0 raw) maximum_revision) _ _
            λ fits. leb→le (digits_value 0 raw) maximum_revision fits

  rebuild_dump-IsLedger :
      (revision n : ℕ) (modified last : Bytes) (rows : List Record) (links : List FileLink)
      → revision ≤ maximum_revision
      → n ≤ maximum_authors
      → Rows modified n rows
      → Known last rows
      → AreLinks u links
      → untouched revision modified rows links ≡ true
      → OnOk (IsLedger u) (rebuild_dump (read_ledger revision modified rows last links))
  rebuild_dump-IsLedger revision n modified last rows links bound few h known linked quiet =
      rebuild_dump-with_dump (IsLedger u) (read_ledger revision modified rows last links) λ fits.
        record {
          bounded = bound;
          few = subst (λ k. k ≤ maximum_authors) (sym h.counted) few;
          keyed = h.keyed;
          stamps = h.stamps;
          last_known = known;
          active_known = inl refl;
          linked = linked;
          text = sym (dump_text-with_dump (read_ledger revision modified rows last links) _);
          fits = fits;
          untouched = λ e. nothing_done revision modified rows links quiet e;
        }

  read_ledger_of-IsLedger : (value : Json) → OnOk (IsLedger u) (read_ledger_of u json zones value)
  unfolding read_ledger_of
  read_ledger_of-IsLedger value =
      let P = IsLedger u in
      OnOk-after P (member_at value (codes "schemaVersion")) _ λ version _.
        OnOk-after P (schema_of u json zones version) _ λ schema _.
          OnOk-after P (check_schema u json zones schema value) _ λ _ _.
            OnOk-after P (text u value (codes "revision") 20 true false) _ λ raw _.
              OnOk-bind P (λ n. n ≤ maximum_revision) (revision_of raw) _ (revision_of-bounded raw)
                λ revision bound.
                  OnOk-after P (optional_date value (codes "modifiedAt") (not (revision == 0))) _
                    λ modified _. OnOk-after P (member_at value (codes "authors")) _ λ given _.
                      OnOk-after P (as_array given) _ λ items _.
                        OnOk-guard P (leb (count items) maximum_authors) _ _ λ few.
                          OnOk-bind P (Rows modified (0 + count items))
                            (read_rows u json zones [] modified items) _
                            (read_rows-Rows u json zones modified items 0 []
                              (record { keyed = tt; stamps = tt; counted = refl }))
                            λ rows h.
                              OnOk-after P (member_at value (codes "lastAuthor")) _ λ named _.
                                OnOk-bind P (λ key. Known key rows) (last_of rows named) _
                                  (last_of-Known rows named)
                                  λ last known.
                                    OnOk-bind P (AreLinks u) (links_of u json zones schema value) _
                                      (links_of-AreLinks schema value)
                                      λ links linked.
                                        OnOk-guard P (untouched revision modified rows links) _ _
                                          λ quiet.
                                            OnOk-bind P P
                                              (rebuild_dump
                                                (read_ledger revision modified rows last links))
                                              _
                                              (rebuild_dump-IsLedger revision (0 + count items)
                                                modified last rows links bound
                                                (bounded_count (count items) few) h known linked
                                                quiet)
                                              λ ledger good.
                                                OnOk-after P
                                                  (check_roles u json zones schema value ledger) _
                                                  λ _ _. good

-- Whatever the text and whatever the JSON library makes of it, a ledger that `fromDump` returns is
-- well-formed: its rows have distinct keys and stamps in order up to the time of modification, 256
-- at most, its last author is one of them or nobody, its links are distinct valid ones, 64 at most,
-- and its text is that of its content and within the limit. So is it then after any sequence of
-- calls, with a revision that has grown by the number of calls that returned `true`.
pub from_dump-run :
    (u : Utf8proc) (json : JsonLibrary) (zones : Zones) (bytes : Bytes) (l : Authorship)
    (calls : List Call)
    → from_dump u json zones bytes ≡ some l
    → IsLedger u l
      × IsLedger u (run u l calls).1
      × ((run u l calls).1.revision ≡ l.revision + (run u l calls).0)
unfolding from_dump
from_dump-run u json zones bytes l calls e =
    let good =
      to_option-OnOk (IsLedger u) _
        (OnOk-after (IsLedger u) (guard (leb (length bytes) maximum_bytes) invalid_argument) _
          λ _ _.
            OnOk-after (IsLedger u) (or_fail (json.parse bytes) invalid_argument) _
              λ value _. read_ledger_of-IsLedger u json zones value)
        e in
    let kept = run-Good u l calls good in (good, kept.0, kept.1.counted)
