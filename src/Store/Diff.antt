-- ===== src/Store/Diff.antt =====
-- ObjectStore::diff: the chunks that a revision has in place of its parent's.
use ii_file_provider.Base.{
  ℕ, zero, suc, ◌+◌, ◌-◌, ◌*◌, ◌≤◌, ◌<◌, max, ◌≡◌, ◌⊎◌, inl, inr, refl, sym, ◌∙◌, Bool, true, false,
  not, ◌||◌, Bool-cases, List, [], ◌∷◌, Bytes, bytes_eq, bytes_eq_iff, ◌==◌, ltb, if◌then◌else◌,
  is_some, subst, ==→eq, length, get_or, arith, tests, Result, ok, ◌>>◌, guard, OnOk-after, OnOk-ok,
}
use ii_file_provider.Store.Tables.{Chunk, Store, Error, version_not_found}
use ii_file_provider.Store.Reads.{chunk_bytes, int64_max, get, chunks}

-- ObjectChange.
pub record ObjectChange : Type 0 where
  pub offset : ℕ
  pub before_hash : Bytes
  pub after_hash : Bytes
  pub before_size : ℕ
  pub after_size : ℕ

-- `Chunk{}`.
abbrev pub no_chunk : Chunk
no_chunk = record { hash = []; size = 0 }

abbrev pub changed : Chunk → Chunk → Bool
changed a b = not (bytes_eq a.hash b.hash) || not (a.size == b.size)

-- The loop over the ordinals, with `n` left from `i`.
unfoldable pub changes_from : ℕ → ℕ → List Chunk → List Chunk → List ObjectChange
changes_from zero i before after = []
changes_from (suc n) i before after =
    let a = get_or before i no_chunk in
    let b = get_or after i no_chunk in
    let rest = changes_from n (i + 1) before after in
    if changed a b
    then record {
      offset = i * chunk_bytes;
      before_hash = a.hash;
      after_hash = b.hash;
      before_size = a.size;
      after_size = b.size;
    }
      ∷ rest
    else rest

-- The chunks of the version before, of which the first has none.
abbrev pub chunks_before : Store → Bytes → ℕ → List Chunk
chunks_before s key version = if ltb 1 version then chunks s key (version - 1) else []

unfoldable pub diff : Store → Bytes → ℕ → Result Error (List ObjectChange)
diff s key version = do
  guard (not (version == 0 || ltb int64_max version || not (is_some (get s key version))))
      version_not_found
  let before = chunks_before s key version
  let after = chunks s key version
  ok (changes_from (max (length before) (length after)) 0 before after)

-- A client's use of the changes: the chunk that stands at an offset after them, and before them.
unfoldable pub patch : List ObjectChange → ℕ → Chunk → Chunk
patch [] offset chunk = chunk
patch (x ∷ xs) offset chunk =
    if x.offset == offset
    then record { hash = x.after_hash; size = x.after_size }
    else patch xs offset chunk

unfoldable pub unpatch : List ObjectChange → ℕ → Chunk → Chunk
unpatch [] offset chunk = chunk
unpatch (x ∷ xs) offset chunk =
    if x.offset == offset
    then record { hash = x.before_hash; size = x.before_size }
    else unpatch xs offset chunk

unchanged : (a b : Chunk) → changed a b ≡ false → a ≡ b
unchanged a b e =
    let hash : a.hash ≡ b.hash = (bytes_eq_iff a.hash b.hash).0 (ground arith) in
    let size : a.size ≡ b.size = ground arith in cc (hash, size)

get_or-beyond : (xs : List Chunk) (i : ℕ) → length xs ≤ i → get_or xs i no_chunk ≡ no_chunk
get_or-beyond [] i h = refl
get_or-beyond (x ∷ xs) zero h = absurd (omega (arith, h))
get_or-beyond (x ∷ xs) (suc i) h = get_or-beyond xs i (omega (arith, h))

other_offset : (i j : ℕ) → (i < j) ⊎ (j < i) → j * chunk_bytes == i * chunk_bytes ≡ false
other_offset i j h = elim (Bool-cases (j * chunk_bytes == i * chunk_bytes)) [
  | inl e ↦ absurd (omega (tests, e, h))
  | inr e ↦ e
]

same_offset : (i : ℕ) → i * chunk_bytes == i * chunk_bytes ≡ true
same_offset i = ground arith

module _ (before after : List Chunk) where
  -- Offsets outside the loop's range stay.
  patch-outside :
      (n j i : ℕ) (c : Chunk)
      → (i < j) ⊎ (j + n ≤ i)
      → (patch (changes_from n j before after) (i * chunk_bytes) c ≡ c)
        × (unpatch (changes_from n j before after) (i * chunk_bytes) c ≡ c)
  unfolding patch unpatch changes_from
  patch-outside zero j i c h = (refl, refl)
  patch-outside (suc n) j i c h =
      let rest = patch-outside n (j + 1) i c (omega (arith, h)) in
      let other = other_offset i j (omega (arith, h)) in
      elim (Bool-cases (changed (get_or before j no_chunk) (get_or after j no_chunk))) [
        | inl differ ↦ rw (differ, other) rest
        | inr same ↦ rw same rest
      ]

  -- What the changes say of the chunk at an index, in both directions.
  abbrev Patched : List ObjectChange → ℕ → Type 0
  Patched changes i =
      (patch changes (i * chunk_bytes) (get_or before i no_chunk) ≡ get_or after i no_chunk)
      × (unpatch changes (i * chunk_bytes) (get_or after i no_chunk) ≡ get_or before i no_chunk)

  patch-first : (n j : ℕ) → Patched (changes_from (suc n) j before after) j
  unfolding patch unpatch changes_from
  patch-first n j =
      elim (Bool-cases (changed (get_or before j no_chunk) (get_or after j no_chunk))) [
        | inl differ ↦ rw (differ, same_offset j) (refl, refl)
        | inr same ↦
            let equal = unchanged (get_or before j no_chunk) (get_or after j no_chunk) same in
            let later : j < j + 1 = omega arith in
            rw same (
              (patch-outside n (j + 1) j (get_or before j no_chunk) (inl later)).0 ∙ equal,
              (patch-outside n (j + 1) j (get_or after j no_chunk) (inl later)).1 ∙ sym equal,
            )
      ]

  patch-inside : (n j i : ℕ) → j ≤ i → i < j + n → Patched (changes_from n j before after) i
  unfolding patch unpatch changes_from
  patch-inside zero j i from below = absurd (omega (arith, from, below))
  patch-inside (suc n) j i from below = elim (Bool-cases (j == i)) [
    | inl here ↦
        subst (λ k. Patched (changes_from (suc n) j before after) k) (==→eq j i here)
          (patch-first n j)
    | inr past ↦
        let other = other_offset i j (inr (omega (tests, past, from))) in
        let rest = patch-inside n (j + 1) i (omega (tests, past, from)) (omega (arith, below)) in
        elim (Bool-cases (changed (get_or before j no_chunk) (get_or after j no_chunk))) [
          | inl differ ↦ rw (differ, other) rest
          | inr same ↦ rw same rest
        ]
  ]

  patch-all : (i : ℕ) → Patched (changes_from (max (length before) (length after)) 0 before after) i
  patch-all i = elim (Bool-cases (ltb i total)) [
    | inl inside ↦ patch-inside total 0 i (omega arith) (omega (tests, inside))
    | inr outside ↦
        let none_before = get_or-beyond before i (omega (tests, outside)) in
        let none_after = get_or-beyond after i (omega (tests, outside)) in
        let past : 0 + total ≤ i = omega (tests, outside) in
        (
          (patch-outside total 0 i (get_or before i no_chunk) (inr past)).0
              ∙ none_before
              ∙ sym none_after,
          (patch-outside total 0 i (get_or after i no_chunk) (inr past)).1
              ∙ none_after
              ∙ sym none_before,
        )
  ]
    where
      total : ℕ
      total = max (length before) (length after)

-- The changes that `diff` returns for a revision turn the chunk at every index of the version before
-- (no chunk behind the last, and none at all before version 1) into the revision's chunk there when
-- they are applied, and the revision's chunk back into the one before when they are reversed.
pub diff-patch :
    (s : Store) (key : Bytes) (version : ℕ) (changes : List ObjectChange)
    → diff s key version ≡ ok changes
    → (i : ℕ)
    → (patch changes (i * chunk_bytes) (get_or (chunks_before s key version) i no_chunk)
        ≡ get_or (chunks s key version) i no_chunk)
      × (unpatch changes (i * chunk_bytes) (get_or (chunks s key version) i no_chunk)
          ≡ get_or (chunks_before s key version) i no_chunk)
unfolding diff
diff-patch s key version changes e i =
    OnOk-ok (λ found. Patched before after found i) (diff s key version) changes
      (OnOk-after (λ found. Patched before after found i)
        (guard (not (version == 0 || ltb int64_max version || not (is_some (get s key version))))
          version_not_found)
        _ λ _ _. patch-all before after i)
      e
  where
    before : List Chunk
    before = chunks_before s key version

    after : List Chunk
    after = chunks s key version
