-- ===== src/Author/Ledger/Kept.antt =====
-- recordChange of Native/src/Core/Authorship.cpp on well-formed ledgers.
use ii_file_provider.Base.{
  ℕ, ◌+◌, ◌≤◌, ◌≡◌, ◌≢◌, refl, sym, ap, subst, ◌∙◌, true, not, [], ◌∷◌, ◌++◌, append-nil, Bytes,
  leb, leb→le, ◌==◌, length, All, Distinct, arith, ok, OnOk, OnOk-after, OnOk-guard, OnOk-ok,
}
use ii_file_provider.Author.Errors.{overflow_error, length_error}
use ii_file_provider.Author.Time.{timestamp, print, instant, print_year}
use ii_file_provider.Author.Unicode.{Utf8proc}
use ii_file_provider.Author.Ledger.{
  Authorship, maximum_revision, maximum_bytes, maximum_authors, dump_text, rebuild_dump, with_dump,
  changed, later_of, record_change, stamp_row,
}
use ii_file_provider.Author.Ledger.Order.{AtMost, AtMost-nonempty, later_of-above_both}
use ii_file_provider.Author.Ledger.Valid.{
  keys, Known, Known-keys, AreLinks, IsLedger, Pending, stamp_row-Stamped, keys-stamp_row,
  length-keys,
}

-- What the setters hand to `recordChange`.
pub record IsEdited (u : Utf8proc) (l : Authorship) : Type 0 where
  pub bounded : l.revision ≤ maximum_revision
  pub few : length l.authors ≤ maximum_authors
  pub keyed : Distinct (keys l.authors)
  pub pending : All (Pending l.active_author l.modified_at) l.authors
  pub active_known : Known l.active_author l.authors
  pub linked : AreLinks u l.links

-- `next` is `l` after one more change, at `at`.
pub record Advances (at : Bytes) (l next : Authorship) : Type 0 where
  pub counted : next.revision ≡ l.revision + 1
  pub later : AtMost l.modified_at next.modified_at
  pub covered : (stamp : Bytes) × (timestamp at ≡ ok stamp) × AtMost stamp next.modified_at
  pub keys_stay : keys next.authors ≡ keys l.authors
  pub last : next.last_author ≡ l.active_author
  pub active : next.active_author ≡ l.active_author
  pub links_stay : next.links ≡ l.links

append-nonempty : (xs ys : Bytes) (c : ℕ) → xs ++ c ∷ ys ≢ []
append-nonempty [] ys c = λ e. cc
append-nonempty (x ∷ xs) ys c = λ e. cc

pub timestamp-nonempty : (at stamp : Bytes) → timestamp at ≡ ok stamp → stamp ≢ []
unfolding timestamp print
timestamp-nonempty at stamp e =
    OnOk-ok (λ s. s ≢ []) (timestamp at) stamp
      (OnOk-after (λ s. s ≢ []) (instant at) _
        λ t i. append-nonempty (print_year t.day.year) _ b'-')
      e

pub rebuild_dump-with_dump :
    (P : Authorship → Type 0) (l : Authorship)
    → (length (dump_text l) ≤ maximum_bytes → P (with_dump l (dump_text l)))
    → OnOk P (rebuild_dump l)
unfolding rebuild_dump
rebuild_dump-with_dump P l h =
    OnOk-guard P (leb (length (dump_text l)) maximum_bytes) length_error _
      λ g. h (leb→le (length (dump_text l)) maximum_bytes g)

pub dump_text-with_dump :
    (l : Authorship) (text : Bytes) → dump_text (with_dump l text) ≡ dump_text l
unfolding dump_text
dump_text-with_dump l text = refl

room_left :
    (n : ℕ) → n ≤ maximum_revision → not (n == maximum_revision) ≡ true → n + 1 ≤ maximum_revision
room_left n h e = ground arith

not-suc : (n : ℕ) → n + 1 ≢ 0
not-suc n e = omega arith

changed-IsLedger :
    (u : Utf8proc) (l : Authorship) (modified : Bytes)
    → IsEdited u l
    → l.revision + 1 ≤ maximum_revision
    → AtMost l.modified_at modified
    → modified ≢ []
    → length (dump_text (changed l modified)) ≤ maximum_bytes
    → IsLedger u (with_dump (changed l modified) (dump_text (changed l modified)))
changed-IsLedger u l modified h room le n fits =
    let same = keys-stamp_row l.active_author modified l.authors in
    let known =
      Known-keys l.active_author l.authors (stamp_row l.active_author modified l.authors) []
        (same ∙ sym (append-nil (keys l.authors))) h.active_known in
    record {
      bounded = room;
      few =
          subst (λ n. n ≤ maximum_authors)
            (sym (length-keys l.authors)
              ∙ ap length (sym same)
              ∙ length-keys (stamp_row l.active_author modified l.authors))
            h.few;
      keyed = subst Distinct (sym same) h.keyed;
      stamps =
          stamp_row-Stamped l.active_author l.modified_at modified l.authors h.keyed h.pending le n;
      last_known = known;
      active_known = known;
      linked = h.linked;
      text = sym (dump_text-with_dump (changed l modified) (dump_text (changed l modified)));
      fits = fits;
      untouched = λ e. absurd (not-suc l.revision e);
    }

-- A recorded change leaves a well-formed ledger with one more revision, no earlier a stamp, the same
-- keys and links, and the active author as the last one.
pub record_change-IsLedger :
    (u : Utf8proc) (l : Authorship) (at : Bytes)
    → IsEdited u l
    → OnOk (λ next. IsLedger u next × Advances at l next) (record_change l at)
unfolding record_change
record_change-IsLedger u l at h = OnOk-after _ (timestamp at) _ λ stamp e.
    OnOk-guard _ (not (l.revision == maximum_revision)) overflow_error _ λ g.
      let modified = later_of l.modified_at stamp in
      let above = later_of-above_both l.modified_at stamp in
      let n = AtMost-nonempty stamp modified above.1 (timestamp-nonempty at stamp e) in
      rebuild_dump-with_dump _ (changed l modified) λ fits. (
        changed-IsLedger u l modified h (room_left l.revision h.bounded g) above.0 n fits,
        record {
          counted = refl;
          later = above.0;
          covered = (stamp, e, above.1);
          keys_stay = keys-stamp_row l.active_author modified l.authors;
          last = refl;
          active = refl;
          links_stay = refl;
        },
      )
