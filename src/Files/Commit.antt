-- ===== src/Files/Commit.antt =====
-- publishFile of Native/src/Filesystem/AtomicSave.cpp, with checked and moveFile of
-- Native/src/Filesystem/AtomicPublication.cpp in the branch for Linux.
use ii_file_provider.Base.{
  ℕ, Bool, true, false, not, ◌&&◌, ◌||◌, ◌++◌, Option, none, some, Bytes, bytes_eq, Result, ok, err,
  if◌then◌else◌, is_some, codes,
}
use ii_file_provider.Files.World.{
  Error, invalid_path, file_error, other_error, io_failure, Errno, exists, no_entry, Answer, failed,
  Node, World, Action, pure, ◌>>=◌, ◌>>◌, require, put, node_at, ask, call, succeeds, enqueue,
  preview,
}
use ii_file_provider.Files.Paths.{Paths, is_name}
use ii_file_provider.Files.Publish.{
  PublishResult, published, refused, is_regular, with_mode, mode_of, status, move_node,
}
use ii_file_provider.Files.Staged.{reserve}

abbrev pub retire : Bytes → Answer → Action (Unit {0})
retire probe (failed e) = pure tt
retire probe _ = put probe none

module _ (paths : Paths) (lexically_normal : Bytes → Bytes) where
  -- `rename` does nothing, and succeeds, where both paths are names of one file.
  abbrev pub rename_to : Bytes → Bytes → Action (Unit {0})
  rename_to source destination =
      if paths.same_file source destination then pure tt else move_node source destination

  -- `moveFile`: `rename`, or renameat2 with RENAME_NOREPLACE.
  abbrev pub move_answered : Bytes → Bytes → Bool → Option Node → Answer → Action (Option Errno)
  move_answered source destination overwrite there (failed e) = pure (some e)
  move_answered source destination true there _ = do rename_to source destination; pure none
  move_answered source destination false (some other) _ = pure (some exists)
  move_answered source destination false none _ = do rename_to source destination; pure none

  unfoldable pub move_file : Bytes → Bytes → Bool → Action (Option Errno)
  move_file source destination overwrite = do
    answer ← ask
    there ← node_at destination
    move_answered source destination overwrite there answer

  unfoldable pub checked : Bytes → Action Bytes
  checked path = do
    require (is_name path) (file_error invalid_path)
    pure (lexically_normal (paths.absolute path))

  -- `newPermissions`.
  unfoldable pub new_permissions : Bytes → Action ℕ
  new_permissions stage = do
    let probe = stage ++ codes ".permission-probe"
    made ← reserve paths.created_mode probe
    require made (file_error io_failure)
    inspected ← ask
    removed ← ask
    retire probe removed
    closed ← ask
    require (succeeds inspected && succeeds removed && succeeds closed) (file_error io_failure)
    pure paths.created_mode

  -- The mode that the destination is going to have.
  abbrev pub mode_for : Bytes → Option Node → Option ℕ → Action ℕ
  mode_for stage target (some mode) = pure mode
  mode_for stage (some n) none = pure (mode_of n 0)
  mode_for stage none none = new_permissions stage

  -- SourceAccess, if the destination exists.
  abbrev pub access : Option Node → Action (Unit {0})
  access none = pure tt
  access (some n) = call other_error

  abbrev pub moved : Bytes → Option Errno → Action PublishResult
  moved destination none = do preview (enqueue destination); pure published
  moved destination (some exists) = pure (refused (codes "already_exists"))
  moved destination (some e) = pure (refused (codes "atomic_commit_failed"))

  -- A mode is that of the file, under whichever name.
  abbrev pub share : Bytes → Bytes → Option Node → Action (Unit {0})
  share stage destination n =
      if paths.same_file stage destination then put destination n else pure tt

  -- Behind the mode: `permissions`, whose answer this is, and `moveFile`.
  abbrev pub permitted : Bytes → Bytes → Bool → ℕ → Option Node → Answer → Action PublishResult
  permitted stage destination overwrite mode n (failed e) =
      pure (refused (codes "temporary_permissions_failed"))
  permitted stage destination overwrite mode n _ = do
    put stage (with_mode n mode)
    share stage destination (with_mode n mode)
    error ← move_file stage destination overwrite
    moved destination error

  -- Behind the destination's status.
  unfoldable pub commit_to : Bytes → Bytes → Bool → Option ℕ → Option Node → Action PublishResult
  unfolding move_file new_permissions
  commit_to stage destination overwrite permissions target =
      if is_some target && not (is_regular target)
      then pure (refused (codes "invalid_path"))
      else (if not overwrite && is_some target then pure (refused (codes "already_exists")) else (do
        access target
        mode ← mode_for stage target permissions
        answer ← ask
        n ← node_at stage
        permitted stage destination overwrite mode n answer))

  abbrev pub inspected_target :
      Bytes → Bytes → Bool → Option ℕ → Option Node → Answer → Action PublishResult
  inspected_target stage destination overwrite permissions n (failed no_entry) =
      commit_to stage destination overwrite permissions none
  inspected_target stage destination overwrite permissions n (failed e) =
      pure (refused (codes "destination_status_failed"))
  inspected_target stage destination overwrite permissions n _ =
      commit_to stage destination overwrite permissions n

  -- The `try` block, behind `checked`.
  unfoldable pub publish_checked : Bytes → Bytes → Bool → Option ℕ → Action PublishResult
  unfolding status commit_to
  publish_checked stage destination overwrite permissions = do
    source ← status stage
    (if bytes_eq stage destination || not (is_regular source)
        then pure (refused (codes "invalid_source"))
        else (do
          answer ← ask
          target ← node_at destination
          inspected_target stage destination overwrite permissions target answer))

  unfoldable pub publish_try : Bytes → Bytes → Bool → Option ℕ → Action PublishResult
  unfolding checked publish_checked
  publish_try stage_name destination_name overwrite permissions = do
    stage ← checked stage_name
    destination ← checked destination_name
    publish_checked stage destination overwrite permissions

  -- The `catch`.
  abbrev pub or_failed : Result Error PublishResult × World → PublishResult × World
  or_failed (ok result, w) = (result, w)
  or_failed (err e, w) = (refused (codes "atomic_commit_failed"), w)

  unfoldable pub publish_file : Bytes → Bytes → Bool → Option ℕ → World → PublishResult × World
  unfolding publish_try
  publish_file stage_name destination_name overwrite permissions w =
      or_failed (publish_try stage_name destination_name overwrite permissions w)
