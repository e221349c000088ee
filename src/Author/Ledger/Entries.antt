-- ===== src/Author/Ledger/Entries.antt =====
-- The rows that Authorship::fromDump (Native/src/Core/Authorship.cpp) reads.
use ii_file_provider.Base.{
  OnOk-from, ℕ, ◌+◌, ◌≡◌, refl, sym, ap, subst, ◌∙◌, ◌≢◌, Bool, true, false, not, ◌&&◌, List, [],
  ◌∷◌, ◌++◌, Option, none, some, Bytes, bytes_eq, length, length-append, find, is_some, OnOk,
  OnOk-after, OnOk-guard, OnOk-bind, All, All-append, Distinct, Distinct-snoc, or_fail, arith,
  codes,
}
use ii_file_provider.Base.Search.{bytes_ltb}
use ii_file_provider.Author.Errors.{invalid_argument}
use ii_file_provider.Author.Unicode.{Utf8proc}
use ii_file_provider.Author.Time.{timestamp}
use ii_file_provider.Author.Json.{
  Json, Elements, JsonLibrary, null, boolean, number, string, array, object, nil, cons, count,
  keys as member_keys, member_at, text, value_at, date_of, optional_date,
}
use ii_file_provider.Author.Details.{Zones}
use ii_file_provider.Author.Snapshot.{from_json_text}
use ii_file_provider.Author.Ledger.{Record, key_for}
use ii_file_provider.Author.Ledger.Changes.{has_key}
use ii_file_provider.Author.Ledger.Valid.{Stamped, keys, keys-append}
use ii_file_provider.Author.Ledger.Kept.{timestamp-nonempty}
use ii_file_provider.Author.Ledger.Recorded.{missing-fresh}
use ii_file_provider.Author.Ledger.Reading.{new_row, read_row, read_rows}

-- A date that must be there is not empty.
date_of-nonempty : (o : Option Json) → OnOk (λ d. d ≢ []) (date_of o true)
date_of-nonempty none = tt
date_of-nonempty (some null) = tt
date_of-nonempty (some (string s)) = OnOk-from _ (timestamp s) (timestamp-nonempty s)
date_of-nonempty (some (boolean b)) = tt
date_of-nonempty (some (number n)) = tt
date_of-nonempty (some (array items)) = tt
date_of-nonempty (some (object members)) = tt

optional_date-nonempty :
    (value : Json) (name : Bytes) → OnOk (λ d. d ≢ []) (optional_date value name true)
unfolding optional_date
optional_date-nonempty value name = date_of-nonempty (value_at value name)

nothing : (o : Option Record) → is_some o ≡ false → o ≡ none
nothing none e = refl
nothing (some r) e = cc

both_false : (a b : Bool) → not a && not b ≡ true → (a ≡ false) × (b ≡ false)
both_false a b e = (ground arith, ground arith)

second_false : (a b : Bool) → a && not b ≡ true → b ≡ false
second_false a b e = ground arith

abbrev Fits : List Record → Bytes → Record → Type 0
Fits rows modified r = Stamped modified r × (is_some (find (has_key r.key) rows) ≡ false)

row-Fits :
    (rows : List Record) (modified key own profile first last : Bytes)
    → first ≢ []
    → bytes_eq key own && not (is_some (find (has_key key) rows)) ≡ true
    → not (bytes_ltb last first) && not (bytes_ltb modified last) ≡ true
    → Fits rows modified (new_row key profile first last)
row-Fits rows modified key own profile first last n fresh order =
    let o = both_false (bytes_ltb last first) (bytes_ltb modified last) order in
    ((n, o.0, o.1), second_false (bytes_eq key own) (is_some (find (has_key key) rows)) fresh)

pub record Rows (modified : Bytes) (n : ℕ) (rows : List Record) : Type 0 where
  pub keyed : Distinct (keys rows)
  pub stamps : All (Stamped modified) rows
  pub counted : length rows ≡ n

Rows-snoc :
    (modified : Bytes) (n : ℕ) (rows : List Record) (r : Record)
    → Rows modified n rows
    → Fits rows modified r
    → Rows modified (n + 1) (rows ++ r ∷ [])
Rows-snoc modified n rows r h f = record {
  keyed =
      subst Distinct (sym (keys-append rows (r ∷ [])))
        (Distinct-snoc (keys rows) r.key h.keyed (missing-fresh r.key rows (nothing _ f.1)));
  stamps = All-append (Stamped modified) rows (r ∷ []) h.stamps (f.0, tt);
  counted = length-append rows (r ∷ []) ∙ ap (λ k. k + 1) h.counted;
}

module _ (u : Utf8proc) (json : JsonLibrary) (zones : Zones) where
  read_row-Fits :
      (rows : List Record) (modified : Bytes) (item : Json)
      → OnOk (Fits rows modified) (read_row u json zones rows modified item)
  unfolding read_row
  read_row-Fits rows modified item =
      let P = Fits rows modified in
      let row_keys =
        codes "key" ∷ codes "author" ∷ codes "firstChangedAt" ∷ codes "lastChangedAt" ∷ [] in
      OnOk-after P (member_keys item row_keys) _ λ _ _.
        OnOk-after P (member_at item (codes "author")) _ λ given _.
          OnOk-after P (or_fail (json.dump given) invalid_argument) _ λ printed _.
            OnOk-after P (or_fail (from_json_text u json zones printed) invalid_argument) _
              λ snapshot _. OnOk-after P (text u item (codes "key") 64 true false) _ λ key _.
                OnOk-after P (key_for snapshot.author) _ λ own _.
                  OnOk-guard P (bytes_eq key own && not (is_some (find (has_key key) rows))) _ _
                    λ fresh.
                      OnOk-bind P (λ d. d ≢ []) (optional_date item (codes "firstChangedAt") true) _
                        (optional_date-nonempty item (codes "firstChangedAt"))
                        λ first n.
                          OnOk-after P (optional_date item (codes "lastChangedAt") true) _ λ last _.
                            OnOk-guard P
                              (not (bytes_ltb last first) && not (bytes_ltb modified last)) _ _
                              λ order.
                                row-Fits rows modified key own snapshot.author.profile first last n
                                  fresh order

  pub read_rows-Rows :
      (modified : Bytes) (items : Elements) (n : ℕ) (rows : List Record)
      → Rows modified n rows
      → OnOk (Rows modified (n + count items)) (read_rows u json zones rows modified items)
  unfolding read_rows
  read_rows-Rows modified nil n rows h = subst (λ k. Rows modified k rows) (omega arith) h
  read_rows-Rows modified (cons item items) n rows h =
      OnOk-bind _ (Fits rows modified) _ _ (read_row-Fits rows modified item) λ r f.
        subst (λ k. OnOk (Rows modified k) (read_rows u json zones (rows ++ r ∷ []) modified items))
          (omega arith)
          (read_rows-Rows modified items (n + 1) (rows ++ r ∷ []) (Rows-snoc modified n rows r h f))
