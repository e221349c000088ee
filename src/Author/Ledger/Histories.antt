-- ===== src/Author/Ledger/Histories.antt =====
-- Sequences of calls of an Authorship of Native/src/Core/Authorship.cpp.
use ii_file_provider.Base.{
  ℕ, ◌+◌, ◌≡◌, refl, sym, ap, subst, ◌∙◌, Bool, true, false, List, [], ◌∷◌, ◌++◌, append-nil,
  append_assoc, Bytes, arith, ok, err, OnOk, inl, leb→le, to_string,
}
use ii_file_provider.Author.Errors.{Checked}
use ii_file_provider.Author.Unicode.{Utf8proc}
use ii_file_provider.Author.Links.{FileLink}
use ii_file_provider.Author.Ledger.{
  FileAuthor, Authorship, clear_active_author, empty_ledger, blank, dump_text, with_dump,
}
use ii_file_provider.Author.Quote.{nullable, quote, escape}
use ii_file_provider.Author.Ledger.Changes.{recorded, set_author, set_links, set_links_from_strings}
use ii_file_provider.Author.Ledger.Order.{AtMost, AtMost-refl, AtMost-trans}
use ii_file_provider.Author.Ledger.Valid.{keys, IsLedger}
use ii_file_provider.Author.Ledger.Recorded.{Outcome, Kept}
use ii_file_provider.Author.Ledger.Setters.{
  set_author-Kept, set_links-Kept, set_links_from_strings-Kept, recorded_only-Kept,
  clear_active_author-IsLedger,
}

pub data Call : Type 0 where
  setting_author : FileAuthor → List FileLink → Bytes → Call
  setting_links : List FileLink → Bytes → Call
  setting_links_from_strings : List Bytes → Bytes → Call
  recording : Bytes → Call
  clearing : Call

-- The ledger that a call leaves, which is the old one if the call throws.
abbrev pub behind : Authorship → Checked (Bool × Authorship) → Bool × Authorship
behind l (ok result) = result
behind l (err e) = (false, l)

-- A call's Boolean, `true` for a `recordChange` that returns.
unfoldable pub perform : Utf8proc → Authorship → Call → Bool × Authorship
perform u l (setting_author author links at) = behind l (set_author u l author links at)
perform u l (setting_links links at) = behind l (set_links u l links at)
perform u l (setting_links_from_strings entries at) =
    behind l (set_links_from_strings u l entries at)
perform u l (recording at) = behind l (recorded l at)
perform u l clearing = (false, clear_active_author l)

abbrev pub one_if : Bool → ℕ
one_if true = 1
one_if false = 0

-- The ledger behind a sequence of calls, and how many of them returned `true`.
unfoldable pub run : Utf8proc → Authorship → List Call → ℕ × Authorship
unfolding perform
run u l [] = (0, l)
run u l (c ∷ cs) =
    let first = perform u l c in
    let rest = run u (first.1) cs in (one_if (first.0) + rest.0, rest.1)

-- What a sequence of calls with `n` changes may do to a ledger.
pub record Grows (n : ℕ) (l next : Authorship) : Type 0 where
  pub counted : next.revision ≡ l.revision + n
  pub later : AtMost l.modified_at next.modified_at
  pub grown : (more : List Bytes) × (keys next.authors ≡ keys l.authors ++ more)

Grows-none : (l : Authorship) → Grows 0 l l
Grows-none l = record {
  counted = omega arith;
  later = AtMost-refl l.modified_at;
  grown = ([], sym (append-nil (keys l.authors)));
}

Grows-Outcome :
    (at : Bytes) (l : Authorship) (result : Bool × Authorship)
    → Outcome at l result
    → Grows (one_if (result.0)) l (result.1)
Grows-Outcome at l (true, next) h = record { counted = h.0; later = h.1; grown = h.3 }
Grows-Outcome at l (false, next) (active, e) = subst (Grows 0 l) (sym e) (record {
  counted = omega arith;
  later = AtMost-refl l.modified_at;
  grown = ([], sym (append-nil (keys l.authors)));
})

Grows-trans : (m n : ℕ) (a b c : Authorship) → Grows m a b → Grows n b c → Grows (m + n) a c
Grows-trans m n a b c f g = record {
  counted = omega (arith, f.counted, g.counted);
  later = AtMost-trans a.modified_at b.modified_at c.modified_at f.later g.later;
  grown = (
    f.grown.0 ++ g.grown.0,
    g.grown.1
        ∙ ap (λ k. k ++ g.grown.0) f.grown.1
        ∙ append_assoc (keys a.authors) f.grown.0 g.grown.0,
  );
}

abbrev Good : Utf8proc → Authorship → Bool × Authorship → Type 0
Good u l result = IsLedger u (result.1) × Grows (one_if (result.0)) l (result.1)

behind-Good :
    (u : Utf8proc) (at : Bytes) (l : Authorship) (m : Checked (Bool × Authorship))
    → IsLedger u l
    → OnOk (Kept u at l) m
    → Good u l (behind l m)
behind-Good u at l (ok result) h k = (k.0, Grows-Outcome at l result k.1)
behind-Good u at l (err e) h k = (h, Grows-none l)

perform-Good : (u : Utf8proc) (l : Authorship) (c : Call) → IsLedger u l → Good u l (perform u l c)
unfolding perform
perform-Good u l (setting_author author links at) h =
    behind-Good u at l (set_author u l author links at) h (set_author-Kept u l author links at h)
perform-Good u l (setting_links links at) h =
    behind-Good u at l (set_links u l links at) h (set_links-Kept u l links at h)
perform-Good u l (setting_links_from_strings entries at) h =
    behind-Good u at l (set_links_from_strings u l entries at) h
      (set_links_from_strings-Kept u l entries at h)
perform-Good u l (recording at) h =
    behind-Good u at l (recorded l at) h (recorded_only-Kept u l at h)
perform-Good u l clearing h = (
  clear_active_author-IsLedger u l h,
  record {
    counted = omega arith;
    later = AtMost-refl l.modified_at;
    grown = ([], sym (append-nil (keys l.authors)));
  },
)

-- Any sequence of calls keeps a ledger well-formed. Its revision grows by the number of calls that
-- return `true`, the text of its time of modification never gets smaller in the order of texts, and
-- the keys of its authors stay, in their order, in front of those that are added.
pub run-Good :
    (u : Utf8proc) (l : Authorship) (calls : List Call)
    → IsLedger u l
    → IsLedger u ((run u l calls).1) × Grows ((run u l calls).0) l ((run u l calls).1)
unfolding run
run-Good u l [] h = (h, Grows-none l)
run-Good u l (c ∷ cs) h =
    let first = perform-Good u l c h in
    let rest = run-Good u ((perform u l c).1) cs first.0 in
    (rest.0, Grows-trans _ _ l ((perform u l c).1) _ first.1 rest.1)

abbrev pub start : Authorship
start = with_dump blank (dump_text blank)

pub start-IsLedger : (u : Utf8proc) → IsLedger u start
unfolding dump_text nullable quote to_string escape
start-IsLedger u = record {
  bounded = omega arith;
  few = omega arith;
  keyed = tt;
  stamps = tt;
  last_known = inl refl;
  active_known = inl refl;
  linked = record { few = omega arith; allow = tt; differ = tt };
  text = refl;
  fits = leb→le _ 2097152 refl;
  untouched = λ e. (refl, refl, refl);
}

start-fits : empty_ledger ≡ ok start
unfolding empty_ledger dump_text nullable quote to_string escape
start-fits = refl

-- The constructor returns a ledger, and every sequence of calls from there leaves a well-formed one,
-- whose revision is the number of the calls that returned `true`.
pub empty_ledger-run :
    (u : Utf8proc) (calls : List Call)
    → (l : Authorship) × (empty_ledger ≡ ok l)
      × IsLedger u ((run u l calls).1)
      × ((run u l calls).1.revision ≡ (run u l calls).0)
empty_ledger-run u calls =
    let h = run-Good u start calls (start-IsLedger u) in
    (start, start-fits, h.0, h.1.counted ∙ zero_add)
  where
    zero_add : 0 + (run u start calls).0 ≡ (run u start calls).0
    zero_add = omega arith
