-- ===== src/Catalog/Index/Kept.antt =====
-- Sequences of entries that are put into a FileSearchIndex of src/Catalog/FileSearchIndex.cpp.
use ii_file_provider.Base.{
  ◌≡◌, refl, sym, ap, ◌∙◌, subst, Bool, true, false, not, List, [], ◌∷◌, Option, some, Bytes,
  bytes_eq, bytes_eq_iff, bytes_eq_refl, ◌||◌, ok, ◌>>◌, guard, if◌then◌else◌, find, is_some,
  Bool-cases, inl, inr, length, ◌==◌,
}
use ii_file_provider.Base.Search.{find_byte}
use ii_file_provider.Catalog.Match.{invalid_argument, runtime_error}
use ii_file_provider.Catalog.Index.{
  FileSearchEntry, FileSearchIndex, Executes, excluded, merged, at_path, insert_row, has_path,
  indexed_with, upsert, contains_path, bindable, without_path, or_erased,
}

unfoldable pub run : Executes → FileSearchIndex → List FileSearchEntry → FileSearchIndex
run executes index [] = index
run executes index (e ∷ es) = run executes (upsert executes index e).1 es

abbrev pub row_at : FileSearchIndex → Bytes → Option FileSearchEntry
row_at index path = find (at_path path) index.entries

-- The set of paths is that of the table.
abbrev pub Agrees : FileSearchIndex → Type 0
Agrees index = (path : Bytes) → contains_path index path ≡ is_some (row_at index path)

-- A later row says of the file what an earlier, classified one says.
pub record Same (old new : FileSearchEntry) : Type 0 where
  pub title : new.title ≡ old.title
  pub file_key : new.file_key ≡ old.file_key
  pub classification : new.classification ≡ old.classification
  pub classified : new.has_classification ≡ true

Same-merged :
    (old new : FileSearchEntry) → old.has_classification ≡ true → Same old (merged old new)
unfolding merged
Same-merged old new h = record {
  title = rw h refl;
  file_key = rw h refl;
  classification = rw h refl;
  classified = rw h refl;
}

some-inj : {a b : FileSearchEntry} → some a ≡ some b → a ≡ b
some-inj e = cc

Same-insert_row :
    (path : Bytes) (new : FileSearchEntry) (rows : List FileSearchEntry) (old : FileSearchEntry)
    → find (at_path path) rows ≡ some old
    → old.has_classification ≡ true
    → (row : FileSearchEntry) × (find (at_path path) (insert_row new rows) ≡ some row)
      × Same old row
unfolding find insert_row merged
Same-insert_row path new [] old e h = cc
Same-insert_row path new (x ∷ xs) old e h = elim (Bool-cases (at_path path x)) [
  | inl here ↦
      let same = some-inj (rw here at e) in
      let classified = subst (λ y. y.has_classification ≡ true) (sym same) h in
      elim (Bool-cases (at_path new.path x)) [
        | inl hit ↦
            rw (hit, here)
              (
                merged x new,
                refl,
                subst (λ y. Same y (merged x new)) same (Same-merged x new classified),
              )
        | inr miss ↦
            rw (miss, here)
              (
                x,
                refl,
                subst (λ y. Same y x) same
                    (record {
                      title = refl;
                      file_key = refl;
                      classification = refl;
                      classified = classified;
                    }),
              )
      ]
  | inr elsewhere ↦ elim (Bool-cases (at_path new.path x)) [
    | inl hit ↦
        rw (hit, elsewhere)
          (
            old,
            rw elsewhere at e,
            record { title = refl; file_key = refl; classification = refl; classified = h },
          )
    | inr miss ↦ rw (miss, elsewhere) (Same-insert_row path new xs old (rw elsewhere at e) h)
  ]
]

if-same : (b : Bool) → (if b then true else true) ≡ true
if-same true = refl
if-same false = refl

found-insert_row :
    (path : Bytes) (new : FileSearchEntry) (rows : List FileSearchEntry)
    → is_some (find (at_path path) (insert_row new rows))
      ≡ (if bytes_eq new.path path then true else is_some (find (at_path path) rows))
unfolding find insert_row merged
found-insert_row path new [] = elim (Bool-cases (bytes_eq new.path path)) [
  | inl e ↦ rw e refl
  | inr e ↦ rw e refl
]
found-insert_row path new (x ∷ xs) = elim (Bool-cases (at_path path x)) [
  | inl here ↦ elim (Bool-cases (at_path new.path x)) [
    | inl hit ↦ rw (hit, here) (sym (if-same (bytes_eq new.path path)))
    | inr miss ↦ rw (miss, here) (sym (if-same (bytes_eq new.path path)))
  ]
  | inr elsewhere ↦ elim (Bool-cases (at_path new.path x)) [
    | inl hit ↦
        let other =
          subst (λ y. bytes_eq y path ≡ false) ((bytes_eq_iff x.path new.path).0 hit) elsewhere in
        rw (hit, elsewhere, other) refl
    | inr miss ↦ rw (miss, elsewhere) (found-insert_row path new xs)
  ]
]

has_path-indexed_with :
    (path added : Bytes) (paths : List Bytes)
    → has_path path (indexed_with added paths)
      ≡ (if bytes_eq added path then true else has_path path paths)
unfolding has_path
has_path-indexed_with path added paths = elim (Bool-cases (has_path added paths)) [
  | inl known ↦ elim (Bool-cases (bytes_eq added path)) [
    | inl e ↦
        rw (known, e) (subst (λ p. has_path p paths ≡ true) ((bytes_eq_iff added path).0 e) known)
    | inr e ↦ rw (known, e) refl
  ]
  | inr unknown ↦ rw unknown refl
]

abbrev accepted : FileSearchIndex → FileSearchEntry → FileSearchIndex
accepted index e = record {
  entries = insert_row (excluded e) index.entries;
  indexed = indexed_with e.path index.indexed;
}

-- Taking a path out that has just been put in gives the set back.
without_path-indexed_with :
    (path : Bytes) (paths : List Bytes)
    → (if not (has_path path paths)
        then without_path path (indexed_with path paths)
        else indexed_with path paths)
      ≡ paths
unfolding without_path
without_path-indexed_with path paths = elim (Bool-cases (has_path path paths)) [
  | inl known ↦ rw known refl
  | inr unknown ↦ rw (unknown, bytes_eq_refl path) refl
]

erased :
    (P : FileSearchIndex → Type 0) (index : FileSearchIndex) (e : FileSearchEntry)
    → P index
    → P (record {
      entries = index.entries;
      indexed =
          if not (has_path e.path index.indexed)
          then without_path e.path (indexed_with e.path index.indexed)
          else indexed_with e.path index.indexed;
    })
erased P index e h =
    subst P
      (ap (λ paths. record { entries = index.entries; indexed = paths })
        (sym (without_path-indexed_with e.path index.indexed)))
      h

or_erased-cases :
    (P : FileSearchIndex → Type 0) (index : FileSearchIndex) (e : FileSearchEntry)
    (bound executed : Bool)
    → P index
    → P (accepted index e)
    → P
        (or_erased
          (not (has_path e.path index.indexed))
          e.path
          (record { entries = index.entries; indexed = indexed_with e.path index.indexed })
          (do
            guard bound invalid_argument
            guard executed runtime_error
            ok (insert_row (excluded e) index.entries))).1
or_erased-cases P index e true true h k = k
or_erased-cases P index e true false h k = erased P index e h
or_erased-cases P index e false executed h k = erased P index e h

-- A call leaves the index as it was, or with its entry.
upsert-cases :
    (executes : Executes) (P : FileSearchIndex → Type 0) (index : FileSearchIndex)
    (e : FileSearchEntry)
    → P index
    → P (accepted index e)
    → P (upsert executes index e).1
unfolding upsert
upsert-cases executes P index e h k =
    elim (Bool-cases (length e.path == 0 || is_some (find_byte 0 e.path))) [
      | inl refused ↦ rw refused h
      | inr named ↦ rw named (or_erased-cases P index e (bindable e) (executes e index.entries) h k)
    ]

Agrees-upsert :
    (executes : Executes) (index : FileSearchIndex) (e : FileSearchEntry)
    → Agrees index
    → Agrees (upsert executes index e).1
Agrees-upsert executes index e h = upsert-cases executes Agrees index e h λ path.
    has_path-indexed_with path e.path index.indexed
    ∙ ap (λ b. if bytes_eq e.path path then true else b) (h path)
    ∙ sym (found-insert_row path (excluded e) index.entries)

abbrev Keeps : Bytes → FileSearchEntry → FileSearchIndex → Type 0
Keeps path old next = (row : FileSearchEntry) × (row_at next path ≡ some row) × Same old row

Same-trans : (a b c : FileSearchEntry) → Same a b → Same b c → Same a c
Same-trans a b c f g = record {
  title = g.title ∙ f.title;
  file_key = g.file_key ∙ f.file_key;
  classification = g.classification ∙ f.classification;
  classified = g.classified;
}

-- The first classification of a path stays: its title, file key and classification are read the same
-- after any entries have been put into the index.
pub row_at-run :
    (executes : Executes) (path : Bytes) (index : FileSearchIndex) (es : List FileSearchEntry)
    (old : FileSearchEntry)
    → row_at index path ≡ some old
    → old.has_classification ≡ true
    → (row : FileSearchEntry) × (row_at (run executes index es) path ≡ some row) × Same old row
unfolding run
row_at-run executes path index [] old found h =
    (old, found, record { title = refl; file_key = refl; classification = refl; classified = h })
row_at-run executes path index (e ∷ es) old found h =
    let stays : Keeps path old index = (
      old,
      found,
      record { title = refl; file_key = refl; classification = refl; classified = h },
    ) in
    let step =
      upsert-cases executes (Keeps path old) index e stays
        (Same-insert_row path (excluded e) index.entries old found h) in
    let rest =
      row_at-run executes path (upsert executes index e).1 es step.0 step.1 step.2.classified in
    (rest.0, rest.1, Same-trans old step.0 rest.0 step.2 rest.2)

-- Where a path is in the set of an index if and only if the table has a row for it, that is so after
-- any entries have been put into it, those for which `upsert` throws among them.
pub contains_path-run :
    (executes : Executes) (index : FileSearchIndex) (es : List FileSearchEntry) (path : Bytes)
    → Agrees index
    → contains_path (run executes index es) path ≡ is_some (row_at (run executes index es) path)
unfolding run
contains_path-run executes index [] path h = h path
contains_path-run executes index (e ∷ es) path h =
    contains_path-run executes (upsert executes index e).1 es path
      (Agrees-upsert executes index e h)
