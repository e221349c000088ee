-- ===== src/Files/Paths.antt =====
-- checkedPath and parentOf of Native/src/Core/File.cpp, over the functions of std::filesystem that
-- need the current directory or the links on the way.
use ii_file_provider.Base.{
  ℕ, ◌-◌, Bool, not, ◌||◌, List, ◌∷◌, ◌++◌, Bytes, ◌==◌, if◌then◌else◌, length, get_or, is_some,
}
use ii_file_provider.Base.Search.{find_byte}
use ii_file_provider.Files.World.{
  Action, pure, ◌>>◌, require, call, invalid_path, file_error, other_error,
}

-- `absolute`, `path::parent_path`, `weakly_canonical`, `path::extension`, the directories that
-- `create_directories` makes of a path, and what O_CREAT leaves of 0666, and whether two paths
-- are names of one file: hard links, or one entry reached through two directories.
pub record Paths : Type 0 where
  pub absolute : Bytes → Bytes
  pub parent_path : Bytes → Bytes
  pub current_path : Bytes
  pub weakly_canonical : Bytes → Bytes
  pub extension : Bytes → Bytes
  pub ancestors : Bytes → List Bytes
  pub created_mode : ℕ
  pub same_file : Bytes → Bytes → Bool

-- `path::filename().empty()`: nothing stands behind the last slash.
abbrev pub filename_empty : Bytes → Bool
filename_empty path = length path == 0 || get_or path (length path - 1) 0 == b'/'

abbrev pub is_name : Bytes → Bool
is_name path = not (filename_empty path || is_some (find_byte 0 path))

-- `operator/` of a directory and a name.
abbrev pub join : Bytes → Bytes → Bytes
join directory name =
    if filename_empty directory then directory ++ name else directory ++ (b'/' ∷ name)

module _ (paths : Paths) where
  unfoldable pub checked_path : Bytes → Action Bytes
  checked_path path = do
    require (is_name path) (file_error invalid_path)
    pure (paths.absolute path)

  abbrev pub parent_of : Bytes → Bytes
  parent_of path =
      if length (paths.parent_path path) == 0 then paths.current_path else paths.parent_path path

  -- `weakly_canonical`, which may throw.
  unfoldable pub canonical_parent : Bytes → Action Bytes
  canonical_parent path = do call other_error; pure (paths.weakly_canonical (parent_of path))
