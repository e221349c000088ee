-- ===== src/Files/Writes.antt =====
-- StagedFile::publish, and write, create, update and remove of Native/src/Core/File.cpp.
use ii_file_provider.Base.{
  Option, ℕ, zero, suc, ◌+◌, Bool, true, false, ◌++◌, none, some, Bytes, bytes_eq, Result, ok, err,
  if◌then◌else◌, ◌==◌, length, codes,
}
use ii_file_provider.Files.World.{
  Answer, Node, io_failure, limit_exceeded, already_exists, conflict, Error, file_error,
  other_error, exists, no_entry, failed, directory, World, Action, pure, throw, ◌>>=◌, ◌>>◌,
  require, put, node_at, ask, call, nonce, succeeds, enqueue, cancel_pending, remove_companion,
  preview,
}
use ii_file_provider.Files.Paths.{Paths, checked_path, join}
use ii_file_provider.Files.Publish.{PublishResult, published, refused, is_regular, publish}
use ii_file_provider.Files.Staged.{attempts, create_directories, staged_file, write_staged, discard}
use ii_file_provider.Files.Reads.{read}

-- A StagedFile: its reserved path, its destination, and whether it has been published.
pub record StagedFile : Type 0 where
  pub path : Bytes
  pub destination : Bytes
  pub is_published : Bool

abbrev pub staged : Bytes × Bytes → StagedFile
staged p = record { path = p.0; destination = p.1; is_published = false }

abbrev pub succeeded : PublishResult → Bool
succeeded published = true
succeeded (refused suffix) = false

-- The destructor.
unfoldable pub destroy : StagedFile → Action (Unit {0})
unfolding discard
destroy file = if file.is_published then pure tt else discard file.path

module _ (paths : Paths) where
  unfoldable pub publish_staged : StagedFile → Action (PublishResult × StagedFile)
  unfolding publish
  publish_staged file =
      if file.is_published then pure (refused (codes "already_published"), file) else (do
        result ← publish paths file.path file.destination
        pure (
          result,
          record {
            path = file.path;
            destination = file.destination;
            is_published = succeeded result;
          },
        ))

  unfoldable pub write_body : StagedFile → Bytes → Action (PublishResult × StagedFile)
  unfolding publish_staged
  write_body file bytes = do write_staged paths file.path bytes; publish_staged file

  -- `write`, behind the StagedFile's construction: its destructor runs when `write_body` has
  -- returned or thrown, which leaves the file as it was.
  unfoldable pub end_write :
      StagedFile
      → Result Error (PublishResult × StagedFile) × World
      → Result Error (Unit {0}) × World
  unfolding destroy
  end_write file (ok result, w) =
      (do destroy (result.1); require (succeeded (result.0)) (file_error io_failure)) w
  end_write file (err e, w) = (do destroy file; throw e) w

  unfoldable pub write : Bytes → Bytes → Action (Unit {0})
  unfolding write_body end_write
  write name bytes = do
    paths_made ← staged_file paths name
    (λ w. end_write (staged paths_made) (write_body (staged paths_made) bytes w))

-- What `create` does by the answer of `link` and what stands at its two paths.
abbrev pub linked : Bytes → Option Node → Option Node → Answer → Action (Unit {0})
linked target there content (failed exists) = throw (file_error already_exists)
linked target there content (failed e) = throw (file_error io_failure)
linked target (some other) content _ = throw (file_error already_exists)
linked target none none _ = throw (file_error io_failure)
linked target none (some content) _ = put target (some content)

-- `link`, and what `create` throws if it fails. The two names are one file from then on; `create`
-- removes the staged name before anything changes the file, so that the node may stand at both.
unfoldable pub link : Bytes → Bytes → Action (Unit {0})
link source target = do
  answer ← ask
  there ← node_at target
  content ← node_at source
  linked target there content answer

module _ (paths : Paths) where
  unfoldable pub create_body : StagedFile → Bytes → Bytes → Action (Unit {0})
  unfolding link
  create_body file target bytes = do
    write_staged paths file.path bytes
    link file.path target
    discard file.path
    preview (enqueue target)

  -- The destructor, behind the body's outcome.
  unfoldable pub end_create :
      StagedFile → Result Error (Unit {0}) × World → Result Error (Unit {0}) × World
  unfolding destroy
  end_create file (ok finished, w) = destroy file w
  end_create file (err e, w) = (do destroy file; throw e) w

  unfoldable pub create : Bytes → Bytes → Action (Unit {0})
  unfolding create_body end_create
  create name bytes = do
    target ← checked_path paths name
    paths_made ← staged_file paths target
    (λ w. end_create (staged paths_made) (create_body (staged paths_made) target bytes w))

  abbrev pub largest : ℕ
  largest = 18446744073709551615

  abbrev pub maximum_of : Bytes → ℕ
  maximum_of expected = if length expected == largest then largest else length expected + 1

  -- The `catch` of `update`.
  abbrev pub as_conflict : {A : Type 0} → Result Error A × World → Result Error A × World
  as_conflict (err (file_error limit_exceeded), w) = (err (file_error conflict), w)
  as_conflict outcome = outcome

  -- The `try` block.
  unfoldable pub compare_content : Bytes → Bytes → Action (Unit {0})
  compare_content target expected = do
    content ← read paths target (maximum_of expected)
    require (bytes_eq content expected) (file_error conflict)

  abbrev pub inspected : Option Node → Answer → Action (Unit {0})
  inspected n (failed no_entry) = throw (file_error conflict)
  inspected n (failed e) = throw (file_error io_failure)
  inspected n _ = require (is_regular n) (file_error conflict)

  -- The destination's inspection.
  unfoldable pub inspect : Bytes → Action (Unit {0})
  inspect target = do answer ← ask; n ← node_at target; inspected n answer

  unfoldable pub update : Bytes → Bytes → Bytes → Action (Unit {0})
  unfolding compare_content inspect
  update name expected replacement = do
    target ← checked_path paths name
    inspect target
    (λ w. as_conflict (compare_content target expected w))
    write paths target replacement

  -- `remove(target, error)` of a file that is there; `cancelPending` and `removeCompanion` may throw.
  unfoldable pub unlink : Bytes → Action Bool
  unlink target = do
    answer ← ask
    (if succeeds answer
        then (do put target none; call other_error; preview (remove_companion target); pure true)
        else throw (file_error io_failure))

  abbrev pub remove_at : Bytes → Option Node → Answer → Action Bool
  remove_at target n (failed no_entry) = pure false
  remove_at target n (failed e) = throw (file_error io_failure)
  remove_at target none _ = pure false
  remove_at target (some directory) _ = throw (file_error io_failure)
  remove_at target (some other) _ = unlink target

  unfoldable pub remove : Bytes → Action Bool
  unfolding unlink
  remove name = do
    target ← checked_path paths name
    call other_error
    preview (cancel_pending target)
    answer ← ask
    n ← node_at target
    remove_at target n answer

  -- `create_directory`: whether it has made one, unless an error other than EEXIST is met.
  abbrev pub directory_at : Bytes → Option Node → Answer → Action Bool
  directory_at path n (failed exists) = pure false
  directory_at path n (failed e) = throw (file_error io_failure)
  directory_at path (some other) _ = pure false
  directory_at path none _ = do put path (some directory); pure true

  unfoldable pub make_directory : Bytes → Action Bool
  make_directory path = do answer ← ask; n ← node_at path; directory_at path n answer

  -- TemporaryDirectory's loop over the attempts.
  unfoldable pub reserve_directory : ℕ → Bytes → Action Bytes
  unfolding make_directory
  reserve_directory zero parent = throw (file_error io_failure)
  reserve_directory (suc left) parent = do
    random ← nonce
    let path = join (paths.absolute parent) (codes ".iisacc-native-directory-" ++ random)
    made ← make_directory path
    (if made then (do call other_error; pure path) else reserve_directory left parent)

  unfoldable pub temporary_directory : Bytes → Action Bytes
  unfolding reserve_directory
  temporary_directory parent = do create_directories paths parent; reserve_directory attempts parent
