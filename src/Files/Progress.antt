-- ===== src/Files/Progress.antt =====
-- What Native/src/Core/File.cpp does where no call fails.
use ii_file_provider.Base.{
  min, ◌||◌, ltb, not, ◌==◌, inl, inr, subst, ap, take-all, inl, Option-cases, ◌≤◌, arith, length,
  ◌≡◌, ◌<◌, get_or, List, Bytes, Result, refl, none, some, true, ok, ℕ, suc, zero, [], ◌∷◌,
}
use ii_file_provider.Files.World.{
  Preview, Error, World, Nodes, ◌>>=◌, pure, throw, require, ask, call, node_at, put, nonce,
}
use ii_file_provider.Files.Frame.{some≢none, Replaced, Grown}
use ii_file_provider.Files.Outcomes.{Ends}
use ii_file_provider.Files.Writes.{write}
use ii_file_provider.Files.Overwrite.{write-Replaced}
use ii_file_provider.Files.Paths.{Paths, checked_path, is_name}
use ii_file_provider.Files.Staged.{reserve, reserve_stage, stage_path}
use ii_file_provider.Files.Reads.{
  readable, maximum_offset, open_read, read_amount, read_some, read_bytes, advanced, read,
}

-- The world with so many nonces, where no call fails.
abbrev pub calm : Nodes → List Bytes → List Preview → World
calm f random seen = record { nodes = f; answers = []; nonces = random; previews = seen }

-- Nothing stands at the path that one of the first nonces gives.
abbrev pub IsFree : Paths → Bytes → Nodes → List Bytes → ℕ → Type 0
IsFree paths d f random k = f (stage_path paths d (get_or random k [])) ≡ none

abbrev Returns : {A : Type 0} → Result Error A × World → Type 0
Returns {A} o = (a : A) × (o.0 ≡ ok a)

-- Where no call fails, the loop that reserves a staged path returns one, if one of as many nonces as
-- it has attempts left gives a path where nothing stands.
pub reserve_stage-Returns :
    (paths : Paths) (d : Bytes) (f : Nodes) (seen : List Preview) (random : List Bytes) (left k : ℕ)
    → k < left
    → k < length random
    → IsFree paths d f random k
    → (s : Bytes) × ((reserve_stage paths left d (calm f random seen)).0 ≡ ok s)
unfolding reserve_stage reserve nonce node_at ask put pure ◌>>=◌
reserve_stage-Returns paths d f seen random zero k h l free = absurd (omega arith)
reserve_stage-Returns paths d f seen [] (suc left) k h l free = absurd (omega arith)
reserve_stage-Returns paths d f seen (r ∷ random) (suc left) k h l free =
    elim (Option-cases (f (stage_path paths d r))) [
      | inl absent ↦ (stage_path paths d r, rw absent refl)
      | inr (n, there) ↦
          elim k
              as (λ j.
                j < suc left
                → j < suc (length random)
                → IsFree paths d f (r ∷ random) j
                → Returns (reserve_stage paths (suc left) d (calm f (r ∷ random) seen))) [
                  | zero ↦ λ h l free. absurd (some≢none there free)
                  | suc j ↦ λ h l free. rw there (
                      reserve_stage-Returns paths d f seen random left j (omega arith) (omega arith)
                        free)
                ]
            h l free
    ]

==-same : (n : ℕ) → n == n ≡ true
==-same n = ground arith

allowed : (n m : ℕ) → n ≤ m → n ≤ maximum_offset → not (ltb m n || ltb maximum_offset n) ≡ true
allowed n m h k = ground arith

-- Where no call fails and the path has a name, `read` returns the whole content of a file that is
-- within the limit and within what a stream can address.
pub read-whole :
    (paths : Paths) (name content : Bytes) (maximum : ℕ) (f : Nodes) (random : List Bytes)
    (seen : List Preview)
    → is_name name ≡ true
    → readable (f (paths.absolute name)) ≡ some content
    → length content ≤ maximum
    → length content ≤ maximum_offset
    → read paths name maximum (calm f random seen) ≡ (ok content, calm f random seen)
unfolding read open_read checked_path read_bytes read_some read_amount advanced ◌>>=◌ ask call
    require pure throw node_at
read-whole paths name content maximum f random seen named there short fits =
    let fitting = allowed (length content) maximum short fits in
    let whole = take-all (min (length content) maximum_offset) content (omega arith) in
    let same = ==-same (length content) in rw (named, there, fitting, whole, same) refl

-- What `write` has written, `read` returns, where no later call fails and the bytes are within the
-- limit and within what a stream can address: whatever the calls of `write` have answered.
pub write-read :
    (paths : Paths) (name bytes : Bytes) (maximum : ℕ) (w after : World)
    → write paths name bytes w ≡ (ok tt, after)
    → is_name name ≡ true
    → length bytes ≤ maximum
    → length bytes ≤ maximum_offset
    → (read paths name maximum (calm after.nodes after.nonces after.previews)).0 ≡ ok bytes
write-read paths name bytes maximum w after e named short fits =
    let done =
      subst (Ends (λ _. Replaced w.nodes (paths.absolute name) bytes) (λ x. Grown w.nodes)) e
        (write-Replaced paths name bytes w) in
    ap (λ o. o.0)
      (read-whole paths name bytes maximum after.nodes after.nonces after.previews named
        (ap readable done.0.1) short fits)
