-- ===== src/Author/Ledger/Recorded.antt =====
-- What setAuthor, setLinks and setLinksFromStrings of Native/src/Core/Authorship.cpp leave once they
-- have recorded a change.
use ii_file_provider.Base.{
  ◌+◌, ◌≤◌, ◌≡◌, ◌≢◌, refl, sym, ap, subst, ◌∙◌, Bool, true, false, List, [], ◌∷◌, ◌++◌, append-nil,
  Bytes, bytes_eq_refl, length, find, All, Distinct, is_some, some, none, Bool-cases, inl, inr, ok,
  OnOk, OnOk-after, OnOk-ok, OnOk-map, if◌then◌else◌,
}
use ii_file_provider.Author.Errors.{Checked}
use ii_file_provider.Author.Time.{timestamp}
use ii_file_provider.Author.Unicode.{Utf8proc}
use ii_file_provider.Author.Links.{FileLink, validated_links}
use ii_file_provider.Author.Links.Distinct.{validated_links-IsAccepted}
use ii_file_provider.Author.Ledger.{Record, Authorship, maximum_authors, dump_text, record_change}
use ii_file_provider.Author.Ledger.Changes.{has_key, activate, edited, replace_profile, recorded}
use ii_file_provider.Author.Ledger.Order.{AtMost}
use ii_file_provider.Author.Ledger.Kept.{IsEdited, record_change-IsLedger}
use ii_file_provider.Author.Ledger.Valid.{
  keys, AreLinks, IsLedger, Pending, Stamped, keys-replace_profile, length-keys, has_key-ne,
  found-keys,
}

-- A call that returns `true` has counted one revision and appended keys at most; one that returns
-- `false` has changed the active author at most.
abbrev pub Outcome : Bytes → Authorship → Bool × Authorship → Type 0
Outcome at l (true, next) =
    (next.revision ≡ l.revision + 1)
    × AtMost l.modified_at next.modified_at
    × ((stamp : Bytes) × (timestamp at ≡ ok stamp) × AtMost stamp next.modified_at)
    × ((more : List Bytes) × (keys next.authors ≡ keys l.authors ++ more))
    × (next.last_author ≡ next.active_author)
Outcome at l (false, next) = (active : Bytes) × (next ≡ activate l active)

abbrev pub Kept : Utf8proc → Bytes → Authorship → Bool × Authorship → Type 0
Kept u at l result = IsLedger u (result.1) × Outcome at l result

-- A row in order waits for nothing.
pub waiting :
    (active modified : Bytes) (rows : List Record)
    → All (Stamped modified) rows
    → All (Pending active modified) rows
waiting active modified [] h = tt
waiting active modified (r ∷ rs) h = (inr h.0, waiting active modified rs h.1)

replaced-Stamped :
    (key profile modified : Bytes) (rows : List Record)
    → All (Stamped modified) rows
    → All (Stamped modified) (replace_profile key profile rows)
unfolding replace_profile
replaced-Stamped key profile modified [] h = tt
replaced-Stamped key profile modified (r ∷ rs) h = elim (Bool-cases (has_key key r)) [
  | inl e ↦ rw e (h.0, h.1)
  | inr e ↦ rw e (h.0, replaced-Stamped key profile modified rs h.1)
]

pub if-OnOk :
    (P : Bool × Authorship → Type 0) (test : Bool) (left right : Checked (Bool × Authorship))
    → OnOk P left
    → OnOk P right
    → OnOk P (if test then left else right)
if-OnOk P true left right a b = a
if-OnOk P false left right a b = b

pub dump_text-activate : (l : Authorship) (key : Bytes) → dump_text (activate l key) ≡ dump_text l
unfolding dump_text
dump_text-activate l key = refl

pub IsEdited-IsLedger :
    (u : Utf8proc) (l : Authorship) (links : List FileLink)
    → IsLedger u l
    → AreLinks u links
    → IsEdited u (edited l l.active_author l.authors links)
IsEdited-IsLedger u l links h valid = record {
  bounded = h.bounded;
  few = h.few;
  keyed = h.keyed;
  pending = waiting l.active_author l.modified_at l.authors h.stamps;
  active_known = h.active_known;
  linked = valid;
}

pub recorded-OnOk :
    (P : Bool × Authorship → Type 0) (next : Authorship) (at : Bytes)
    → OnOk (λ after. P (true, after)) (record_change next at)
    → OnOk P (recorded next at)
recorded-OnOk P next at h = OnOk-after P (record_change next at) _ λ after e. OnOk-ok _ _ after h e

pub recorded-Kept :
    (u : Utf8proc) (l : Authorship) (active : Bytes) (rows : List Record) (valid : List FileLink)
    (at : Bytes) (more : List Bytes)
    → IsEdited u (edited l active rows valid)
    → keys rows ≡ keys l.authors ++ more
    → OnOk (Kept u at l) (recorded (edited l active rows valid) at)
recorded-Kept u l active rows valid at more h k =
    recorded-OnOk (Kept u at l) (edited l active rows valid) at (
      OnOk-map _ (λ next. Kept u at l (true, next)) (record_change (edited l active rows valid) at)
        (λ next s. (
          s.0,
          (
            s.1.counted,
            s.1.later,
            s.1.covered,
            (more, s.1.keys_stay ∙ k),
            s.1.last ∙ sym s.1.active,
          ),
        ))
        (record_change-IsLedger u (edited l active rows valid) at h))

pub AreLinks-validated :
    (u : Utf8proc) (links valid : List FileLink)
    → validated_links u links ≡ ok valid
    → AreLinks u valid
AreLinks-validated u links valid e =
    let v = validated_links-IsAccepted u links valid e in
    record { few = subst (λ n. n ≤ 64) (sym v.1) v.2; allow = v.0.allow; differ = v.0.differ }

-- The row of a known key gets another profile.
pub IsEdited-replaced :
    (u : Utf8proc) (l : Authorship) (key profile : Bytes) (valid : List FileLink)
    → IsLedger u l
    → is_some (find (has_key key) l.authors) ≡ true
    → AreLinks u valid
    → IsEdited u (edited l key (replace_profile key profile l.authors) valid)
IsEdited-replaced u l key profile valid h known linked =
    let rows = replace_profile key profile l.authors in
    let same = keys-replace_profile key profile l.authors in
    record {
      bounded = h.bounded;
      few =
          subst (λ n. n ≤ maximum_authors)
            (sym (length-keys l.authors) ∙ ap length (sym same) ∙ length-keys rows) h.few;
      keyed = subst Distinct (sym same) h.keyed;
      pending =
          waiting key l.modified_at rows
            (replaced-Stamped key profile l.modified_at l.authors h.stamps);
      active_known =
          inr (found-keys key l.authors rows [] (same ∙ sym (append-nil (keys l.authors))) known);
      linked = linked;
    }

pub missing-fresh :
    (key : Bytes) (rows : List Record)
    → find (has_key key) rows ≡ none
    → All (λ y. y ≢ key) (keys rows)
unfolding find
missing-fresh key [] e = tt
missing-fresh key (r ∷ rs) e = elim (Bool-cases (has_key key r)) [
  | inl hit ↦ absurd (some≢none (rw hit at e))
  | inr miss ↦ (has_key-ne key r miss, missing-fresh key rs (rw miss at e))
]
  where
    some≢none : ¬ (some r ≡ none)
    some≢none p = cc

pub found-last :
    (rows : List Record) (r : Record) → is_some (find (has_key r.key) (rows ++ r ∷ [])) ≡ true
unfolding find
found-last [] r = rw (bytes_eq_refl r.key) refl
found-last (x ∷ xs) r = elim (Bool-cases (has_key r.key x)) [
  | inl e ↦ rw e refl
  | inr e ↦ rw e (found-last xs r)
]
