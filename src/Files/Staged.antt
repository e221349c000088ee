-- ===== src/Files/Staged.antt =====
-- StagedFile, reserve and writeStaged of Native/src/Core/File.cpp.
use ii_file_provider.Base.{
  Option, ℕ, zero, suc, Bool, true, false, List, [], ◌∷◌, ◌++◌, none, some, Bytes, if◌then◌else◌,
  leb, take, length, codes,
}
use ii_file_provider.Files.World.{
  Node, Answer, io_failure, limit_exceeded, file_error, other_error, done, failed, cut, regular,
  special, directory, symlink, Action, pure, throw, ◌>>=◌, ◌>>◌, require, put, node_at, ask, call,
  nonce, succeeds,
}
use ii_file_provider.Files.Paths.{Paths, is_name, join, parent_of}

abbrev pub maximum_stream : ℕ
maximum_stream = 9223372036854775807

abbrev pub attempts : ℕ
attempts = 128

-- A directory that `create_directories` meets or makes.
abbrev pub ensure_directory : Bytes → Option Node → Action (Unit {0})
ensure_directory p none = put p (some directory)
ensure_directory p (some directory) = pure tt
ensure_directory p (some (symlink target)) = pure tt
ensure_directory p (some (regular content mode)) = throw (file_error io_failure)
ensure_directory p (some (special mode)) = throw (file_error io_failure)

-- The directories of `create_directories`, from the outermost on.
unfoldable pub make_directories : List Bytes → Action (Unit {0})
make_directories [] = pure tt
make_directories (p ∷ ps) = do n ← node_at p; ensure_directory p n; make_directories ps

abbrev pub reserve_at : ℕ → Bytes → Option Node → Answer → Action Bool
reserve_at mode path (some other) answer = pure false
reserve_at mode path none (failed e) = pure false
reserve_at mode path none _ = do put path (some (regular [] mode)); pure true

-- `reserve`: O_CREAT with O_EXCL.
unfoldable pub reserve : ℕ → Bytes → Action Bool
reserve mode path = do answer ← ask; n ← node_at path; reserve_at mode path n answer

abbrev pub sentinel : Bytes
sentinel = codes ".iisacc-temporary.lock"

abbrev pub ensure_sentinel : Bytes → Option Node → Action (Unit {0})
ensure_sentinel p none = put p (some (regular [] 384))
ensure_sentinel p (some (regular [] mode)) = pure tt
ensure_sentinel p (some n) = throw other_error

-- TemporaryLease's constructor, as far as it shows: it throws, or the empty sentinel stands in the
-- directory.
unfoldable pub take_lease : Bytes → Action (Unit {0})
take_lease directory_path = do
  call other_error
  n ← node_at (join directory_path sentinel)
  ensure_sentinel (join directory_path sentinel) n

-- As many of the directories as the call has made.
unfoldable pub make_answered : List Bytes → Answer → Action (Unit {0})
unfolding make_directories
make_answered ps done = make_directories ps
make_answered ps (failed e) = throw (file_error io_failure)
make_answered ps (cut n) = make_directories (take n ps) >> throw (file_error io_failure)

module _ (paths : Paths) where
  -- `create_directories`, which may fail after the first few.
  unfoldable pub create_directories : Bytes → Action (Unit {0})
  unfolding make_answered
  create_directories [] = pure tt
  create_directories (c ∷ cs) = do answer ← ask; make_answered (paths.ancestors (c ∷ cs)) answer

  abbrev pub stage_path : Bytes → Bytes → Bytes
  stage_path destination random =
      join (parent_of paths destination)
        (codes ".iifile-stage-" ++ (random ++ paths.extension destination))

  -- The loop over the attempts.
  unfoldable pub reserve_stage : ℕ → Bytes → Action Bytes
  unfolding reserve
  reserve_stage zero destination = throw (file_error io_failure)
  reserve_stage (suc left) destination = do
    random ← nonce
    free ← reserve paths.created_mode (stage_path destination random)
    (if free then pure (stage_path destination random) else reserve_stage left destination)

  -- The constructor: the destination and the reserved path.
  unfoldable pub staged_file : Bytes → Action (Bytes × Bytes)
  unfolding create_directories take_lease reserve_stage
  staged_file name = do
    require (is_name name) (file_error io_failure)
    let destination = paths.absolute name
    create_directories (parent_of paths destination)
    take_lease (parent_of paths destination)
    stage ← reserve_stage attempts destination
    pure (stage, destination)

  abbrev pub open_output : Bytes → Option Node → Action (Unit {0})
  open_output path none = put path (some (regular [] paths.created_mode))
  open_output path (some (regular content mode)) = put path (some (regular [] mode))
  open_output path (some n) = throw (file_error io_failure)

-- The content of an open file.
abbrev pub fill : Bytes → Bytes → Option Node → Action (Unit {0})
fill path bytes (some (regular content mode)) = put path (some (regular bytes mode))
fill path bytes _ = throw (file_error io_failure)

-- `output.write` and `output.flush`.
abbrev pub write_output : Bytes → Bytes → Option Node → Answer → Action (Unit {0})
write_output path bytes n done = fill path bytes n
write_output path bytes n (failed e) = throw (file_error io_failure)
write_output path bytes n (cut count) =
    fill path (take count bytes) n >> throw (file_error io_failure)

module _ (paths : Paths) where
  unfoldable pub write_staged : Bytes → Bytes → Action (Unit {0})
  write_staged path bytes = do
    call (file_error io_failure)
    before ← node_at path
    open_output paths path before
    require (leb (length bytes) maximum_stream) (file_error limit_exceeded)
    answer ← ask
    opened ← node_at path
    write_output path bytes opened answer
    call (file_error io_failure)

-- `remove(path, error)` of the destructor, whose error is ignored.
unfoldable pub discard : Bytes → Action (Unit {0})
discard path = ask >>= λ answer. if succeeds answer then put path none else pure tt
