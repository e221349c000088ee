-- ===== src/Files/Publish.antt =====
-- File::publish of Native/src/Core/File.cpp.
use ii_file_provider.Base.{
  ℕ, Bool, true, false, not, ◌||◌, Option, none, some, Bytes, bytes_eq, Result, ok, err,
  if◌then◌else◌, codes,
}
use ii_file_provider.Files.World.{
  Error, other_error, Node, regular, special, directory, symlink, World, Action, pure, ◌>>=◌, ◌>>◌,
  put, node_at, ask, call, succeeds, enqueue, preview,
}
use ii_file_provider.Files.Paths.{Paths, canonical_parent}

-- PublishResult: success, or the suffix of a diagnostic.
pub data PublishResult : Type 0 where
  published : PublishResult
  refused : Bytes → PublishResult

abbrev pub is_regular : Option Node → Bool
is_regular (some (regular content mode)) = true
is_regular _ = false

abbrev pub is_directory : Option Node → Bool
is_directory (some directory) = true
is_directory _ = false

abbrev pub is_symlink : Option Node → Bool
is_symlink (some (symlink target)) = true
is_symlink _ = false

-- A file's node with another mode.
abbrev pub with_mode : Option Node → ℕ → Option Node
with_mode (some (regular content old)) mode = some (regular content mode)
with_mode (some (special old)) mode = some (special mode)
with_mode n mode = n

abbrev pub mode_of : Node → ℕ → ℕ
mode_of (regular content mode) other = mode
mode_of (special mode) other = mode
mode_of _ other = other

-- `symlink_status`, which may throw.
unfoldable pub status : Bytes → Action (Option Node)
status path = do call other_error; node_at path

-- `permissions(path, mode)`, which may throw.
unfoldable pub set_mode : Bytes → ℕ → Action (Unit {0})
set_mode path mode = do call other_error; n ← node_at path; put path (with_mode n mode)

-- `if (exists(status)) permissions(temporary, status.permissions());`
abbrev pub copy_mode : Bytes → Option Node → Action (Unit {0})
copy_mode temporary none = pure tt
copy_mode temporary (some n) = set_mode temporary (mode_of n 0)

-- `rename` of one file to the place of another, which does nothing for a path and itself; the two are
-- not names of one file, as a file that has been reserved exclusively is not.
unfoldable pub move_node : Bytes → Bytes → Action (Unit {0})
move_node source destination =
    if bytes_eq source destination
    then pure tt
    else (do n ← node_at source; put destination n; put source none)

unfoldable pub rename : Bytes → Bytes → Action PublishResult
unfolding move_node
rename temporary destination = do
  answer ← ask
  (if succeeds answer
      then (do move_node temporary destination; preview (enqueue destination); pure published)
      else pure (refused (codes "rename_failed")))

module _ (paths : Paths) where
  -- The `try` block.
  unfoldable pub publish_body : Bytes → Bytes → Action PublishResult
  unfolding status set_mode rename
  publish_body temporary destination = do
    from ← canonical_parent paths temporary
    to ← canonical_parent paths destination
    (if not (bytes_eq from to) then pure (refused (codes "cross_directory")) else (do
      source ← status temporary
      (if not (is_regular source) then pure (refused (codes "invalid_staging")) else (do
        target ← status destination
        (if is_symlink target || is_directory target
            then pure (refused (codes "invalid_destination"))
            else (do copy_mode temporary target; rename temporary destination))))))

  -- The `catch`.
  abbrev pub or_refused : Result Error PublishResult × World → Result Error PublishResult × World
  or_refused (ok result, w) = (ok result, w)
  or_refused (err e, w) = (ok (refused (codes "commit_failed")), w)

  unfoldable pub publish : Bytes → Bytes → Action PublishResult
  unfolding publish_body
  publish temporary destination w = or_refused (publish_body temporary destination w)
