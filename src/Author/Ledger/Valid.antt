-- ===== src/Author/Ledger/Valid.antt =====
-- Well-formed ledgers of Native/src/Core/Authorship.cpp, and what a change does to the rows.
use ii_file_provider.Base.{
  suc, arith, ◌≤◌, ◌≡◌, ◌≢◌, ◌⊎◌, refl, sym, ap, subst, ◌∙◌, Bool, true, false, List, [], ◌∷◌, ◌++◌,
  Bytes, bytes_eq, bytes_eq_iff, length, find, All, Distinct, is_some, Bool-cases, inl, inr,
  if◌then◌else◌,
}
use ii_file_provider.Author.Unicode.{Utf8proc}
use ii_file_provider.Author.Links.{FileLink, maximum_links}
use ii_file_provider.Author.Links.Distinct.{IsAllowed}
use ii_file_provider.Author.Ledger.{
  Record, Authorship, maximum_revision, maximum_bytes, maximum_authors, dump_text, stamp_row,
  stamped, is_empty_text,
}
use ii_file_provider.Author.Ledger.Changes.{has_key, replace_profile}
use ii_file_provider.Author.Ledger.Order.{AtMost, AtMost-refl, AtMost-trans}

abbrev pub keys : List Record → List Bytes
keys [] = []
keys (r ∷ rs) = r.key ∷ keys rs

-- A row whose stamps lie in order, up to `modified`.
abbrev pub Stamped : Bytes → Record → Type 0
Stamped modified r =
    (r.first_changed_at ≢ [])
    × AtMost r.first_changed_at r.last_changed_at
    × AtMost r.last_changed_at modified

-- No one, or the key of a row.
abbrev pub Known : Bytes → List Record → Type 0
Known key rows = (key ≡ []) ⊎ (is_some (find (has_key key) rows) ≡ true)

pub record AreLinks (u : Utf8proc) (links : List FileLink) : Type 0 where
  pub few : length links ≤ maximum_links
  pub allow : All (IsAllowed u) links
  pub differ : Distinct links

pub record IsLedger (u : Utf8proc) (l : Authorship) : Type 0 where
  pub bounded : l.revision ≤ maximum_revision
  pub few : length l.authors ≤ maximum_authors
  pub keyed : Distinct (keys l.authors)
  pub stamps : All (Stamped l.modified_at) l.authors
  pub last_known : Known l.last_author l.authors
  pub active_known : Known l.active_author l.authors
  pub linked : AreLinks u l.links
  pub text : l.dump ≡ dump_text l
  pub fits : length l.dump ≤ maximum_bytes
  pub untouched : l.revision ≡ 0 → (l.authors ≡ []) × (l.links ≡ []) × (l.modified_at ≡ [])

-- A row that waits for its first stamp, which the active author's may.
abbrev pub Pending : Bytes → Bytes → Record → Type 0
Pending active modified r = ((r.key ≡ active) × (r.first_changed_at ≡ [])) ⊎ Stamped modified r

first_stamp :
    (first next : Bytes)
    → (first ≡ []) ⊎ AtMost first next
    → next ≢ []
    → ((if is_empty_text first then next else first) ≢ [])
      × AtMost (if is_empty_text first then next else first) next
first_stamp [] next h n = (n, AtMost-refl next)
first_stamp (c ∷ cs) next (inl e) n = cc
first_stamp (c ∷ cs) next (inr h) n = (λ e. cc, h)

Stamped-later :
    (modified next : Bytes) (r : Record)
    → Stamped modified r
    → AtMost modified next
    → Stamped next r
Stamped-later modified next r h le = (h.0, h.1, AtMost-trans r.last_changed_at modified next h.2 le)

stamped-Stamped :
    (active modified next : Bytes) (r : Record)
    → Pending active modified r
    → AtMost modified next
    → next ≢ []
    → Stamped next (stamped next r)
stamped-Stamped active modified next r (inl h) le n =
    let s = first_stamp r.first_changed_at next (inl h.1) n in (s.0, s.1, AtMost-refl next)
stamped-Stamped active modified next r (inr h) le n =
    let up = AtMost-trans r.last_changed_at modified next h.2 le in
    let below = AtMost-trans r.first_changed_at r.last_changed_at next h.1 up in
    let s = first_stamp r.first_changed_at next (inr below) n in (s.0, s.1, AtMost-refl next)

pub has_key-eq : (key : Bytes) (r : Record) → has_key key r ≡ true → r.key ≡ key
has_key-eq key r e = (bytes_eq_iff r.key key).0 e

pub has_key-ne : (key : Bytes) (r : Record) → has_key key r ≡ false → r.key ≢ key
has_key-ne key r e p = false≢true (sym e ∙ (bytes_eq_iff r.key key).1 p)
  where
    false≢true : ¬ (false ≡ true)
    false≢true e = cc

settled :
    (active modified : Bytes) (r : Record)
    → r.key ≢ active
    → Pending active modified r
    → Stamped modified r
settled active modified r n (inl h) = absurd (n h.0)
settled active modified r n (inr h) = h

Stamped-settled :
    (active modified next : Bytes) (rows : List Record)
    → All (λ k. k ≢ active) (keys rows)
    → AtMost modified next
    → All (Pending active modified) rows
    → All (Stamped next) rows
Stamped-settled active modified next [] n le h = tt
Stamped-settled active modified next (r ∷ rs) n le h = (
  Stamped-later modified next r (settled active modified r n.0 h.0) le,
  Stamped-settled active modified next rs n.1 le h.1,
)

-- A change stamps the active author's row, and no row waits any more.
pub stamp_row-Stamped :
    (active modified next : Bytes) (rows : List Record)
    → Distinct (keys rows)
    → All (Pending active modified) rows
    → AtMost modified next
    → next ≢ []
    → All (Stamped next) (stamp_row active next rows)
unfolding stamp_row
stamp_row-Stamped active modified next [] d h le n = tt
stamp_row-Stamped active modified next (r ∷ rs) d h le n = elim (Bool-cases (has_key active r)) [
  | inl e ↦
      let others = subst (λ k. All (λ y. y ≢ k) (keys rs)) (has_key-eq active r e) d.0 in
      rw e (
        stamped-Stamped active modified next r h.0 le n,
        Stamped-settled active modified next rs others le h.1,
      )
  | inr e ↦
      let here = settled active modified r (has_key-ne active r e) h.0 in
      rw e (
        Stamped-later modified next r here le,
        stamp_row-Stamped active modified next rs d.1 h.1 le n,
      )
]

pub keys-stamp_row :
    (active next : Bytes) (rows : List Record) → keys (stamp_row active next rows) ≡ keys rows
unfolding stamp_row
keys-stamp_row active next [] = refl
keys-stamp_row active next (r ∷ rs) = elim (Bool-cases (has_key active r)) [
  | inl e ↦ rw e refl
  | inr e ↦ rw e (ap (◌∷◌ r.key) (keys-stamp_row active next rs))
]

pub keys-replace_profile :
    (key profile : Bytes) (rows : List Record) → keys (replace_profile key profile rows) ≡ keys rows
unfolding replace_profile
keys-replace_profile key profile [] = refl
keys-replace_profile key profile (r ∷ rs) = elim (Bool-cases (has_key key r)) [
  | inl e ↦ rw e refl
  | inr e ↦ rw e (ap (◌∷◌ r.key) (keys-replace_profile key profile rs))
]

pub keys-append : (xs ys : List Record) → keys (xs ++ ys) ≡ keys xs ++ keys ys
keys-append [] ys = refl
keys-append (r ∷ rs) ys = ap (◌∷◌ r.key) (keys-append rs ys)

pub length-keys : (rows : List Record) → length (keys rows) ≡ length rows
length-keys [] = refl
length-keys (r ∷ rs) = ap suc (length-keys rs)

-- Whether a row has a key depends on the keys alone.
abbrev among : Bytes → List Bytes → Bool
among key [] = false
among key (k ∷ ks) = if bytes_eq k key then true else among key ks

found-among :
    (key : Bytes) (rows : List Record) → is_some (find (has_key key) rows) ≡ among key (keys rows)
unfolding find
found-among key [] = refl
found-among key (r ∷ rs) = elim (Bool-cases (has_key key r)) [
  | inl e ↦ rw e refl
  | inr e ↦ rw e (found-among key rs)
]

among-append :
    (key : Bytes) (ks more : List Bytes) → among key ks ≡ true → among key (ks ++ more) ≡ true
among-append key [] more e = ground arith
among-append key (k ∷ ks) more e = elim (Bool-cases (bytes_eq k key)) [
  | inl hit ↦ rw hit refl
  | inr miss ↦ rw miss (among-append key ks more (rw miss at e))
]

pub found-keys :
    (key : Bytes) (rows next : List Record) (more : List Bytes)
    → keys next ≡ keys rows ++ more
    → is_some (find (has_key key) rows) ≡ true
    → is_some (find (has_key key) next) ≡ true
found-keys key rows next more k e =
    found-among key next
    ∙ ap (among key) k
    ∙ among-append key (keys rows) more (sym (found-among key rows) ∙ e)

pub Known-keys :
    (key : Bytes) (rows next : List Record) (more : List Bytes)
    → keys next ≡ keys rows ++ more
    → Known key rows
    → Known key next
Known-keys key rows next more k (inl e) = inl e
Known-keys key rows next more k (inr e) = inr (found-keys key rows next more k e)
