-- ===== src/Author/Ledger/Later.antt =====
-- The time of modification of an Authorship of Native/src/Core/Authorship.cpp.
use ii_file_provider.Base.{◌≡◌, subst, sym, ◌∙◌, false, List}
use ii_file_provider.Base.Search.{bytes_ltb}
use ii_file_provider.Author.Unicode.{Utf8proc}
use ii_file_provider.Author.Calendar.{Instant}
use ii_file_provider.Author.Time.{print}
use ii_file_provider.Author.Time.Canonical.{IsInstant, HasYear}
use ii_file_provider.Author.Time.Order.{earlier, print-earlier}
use ii_file_provider.Author.Ledger.{Authorship}
use ii_file_provider.Author.Ledger.Order.{AtMost}
use ii_file_provider.Author.Ledger.Valid.{IsLedger}
use ii_file_provider.Author.Ledger.Histories.{Call, run, run-Good}

-- Where the time of modification of a well-formed ledger is in the years 0 to 9999, and that behind a
-- sequence of calls as well, the second is not earlier than the first.
pub run-later :
    (u : Utf8proc) (l : Authorship) (calls : List Call) (before after : Instant)
    → IsLedger u l
    → (IsInstant before × HasYear before) × (l.modified_at ≡ print before)
    → (IsInstant after × HasYear after) × ((run u l calls).1.modified_at ≡ print after)
    → earlier after before ≡ false
run-later u l calls before after h old new =
    sym (print-earlier after before new.0.0 old.0.0 new.0.1 old.0.1)
    ∙ subst (λ x. bytes_ltb x (print before) ≡ false) new.1
        (subst (λ x. AtMost x (run u l calls).1.modified_at) old.1 (run-Good u l calls h).1.later)
