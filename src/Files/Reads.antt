-- ===== src/Files/Reads.antt =====
-- ReadFile and File::read of Native/src/Core/File.cpp.
use ii_file_provider.Base.{
  ℕ, ◌+◌, min, Bool, true, false, not, ◌||◌, [], Option, none, some, Bytes, if◌then◌else◌, ltb,
  ◌==◌, take, drop, length,
}
use ii_file_provider.Files.World.{
  Answer, io_failure, limit_exceeded, file_error, other_error, done, failed, cut, Node, regular,
  symlink, Action, pure, throw, ◌>>=◌, ◌>>◌, require, node_at, ask, call, succeeds,
}
use ii_file_provider.Files.Paths.{Paths, checked_path}

-- std::int64_t.
pub data ℤ : Type 0 where
  pos negsuc : ℕ → ℤ

-- The stream's flags: failbit and eofbit behind a short read, badbit behind an error.
pub data Flags : Type 0 where
  good ended bad : Flags

-- An open file: what it reads, its size when it was opened, the position, and the stream's flags.
pub record ReadFile : Type 0 where
  pub content : Bytes
  pub size : ℕ
  pub position : ℕ
  pub flags : Flags

abbrev pub maximum_offset : ℕ
maximum_offset = 9223372036854775807

-- The content that is read through a path.
abbrev pub readable : Option Node → Option Bytes
readable (some (regular content mode)) = some content
readable (some (symlink target)) = target
readable _ = none

abbrev pub opened_file : Option Bytes → Action ReadFile
opened_file none = throw (file_error io_failure)
opened_file (some content) =
    pure (record { content = content; size = length content; position = 0; flags = good })

module _ (paths : Paths) where
  -- The constructor: SourceAccess, `file_size` and the stream's opening may fail.
  unfoldable pub open_read : Bytes → Action ReadFile
  unfolding checked_path
  open_read path = do
    target ← checked_path paths path
    call other_error
    call (file_error io_failure)
    call (file_error io_failure)
    n ← node_at target
    opened_file (readable n)

-- `stream.read` of so many bytes has read `bytes`.
unfoldable pub advanced : ReadFile → ℕ → Bytes → Option Bytes × ReadFile
advanced file amount bytes = (
  some bytes,
  record {
    content = file.content;
    size = file.size;
    position = file.position + length bytes;
    flags = if length bytes == amount then good else ended;
  },
)

-- The bytes that are left behind the position.
abbrev pub upcoming : ReadFile → ℕ → Bytes
upcoming file amount = take amount (drop file.position file.content)

abbrev pub broken : ReadFile → ReadFile
broken file = record {
  content = file.content;
  size = file.size;
  position = file.position;
  flags = bad;
}

abbrev pub read_answered : ReadFile → ℕ → Answer → Option Bytes × ReadFile
read_answered file amount (failed e) = (none, broken file)
read_answered file amount done = advanced file amount (upcoming file amount)
read_answered file amount (cut n) = advanced file amount (take n (upcoming file amount))

-- `stream.read`: nothing if a flag is set.
unfoldable pub read_amount : ReadFile → ℕ → Flags → Action (Option Bytes × ReadFile)
unfolding advanced
read_amount file amount bad = pure (none, file)
read_amount file amount ended = pure (some [], file)
read_amount file amount good = do answer ← ask; pure (read_answered file amount answer)

-- `read(char *, count)`: no bytes stand for -1.
unfoldable pub read_some : ReadFile → ℤ → Action (Option Bytes × ReadFile)
unfolding read_amount
read_some file (negsuc n) = pure (none, file)
read_some file (pos count) = read_amount file (min count maximum_offset) file.flags

abbrev pub or_throw : Option Bytes → ReadFile → Action (Bytes × ReadFile)
or_throw none file = throw (file_error io_failure)
or_throw (some bytes) file = pure (bytes, file)

-- `read(count)`.
unfoldable pub read_bytes : ReadFile → ℤ → Action (Bytes × ReadFile)
unfolding read_some
read_bytes file (negsuc n) = throw (file_error io_failure)
read_bytes file (pos count) = do result ← read_some file (pos count); or_throw (result.0) (result.1)

-- `seekg` sets failbit alone.
abbrev pub stopped : ReadFile → ReadFile
stopped file = record {
  content = file.content;
  size = file.size;
  position = file.position;
  flags = ended;
}

unfoldable pub seek : ReadFile → ℕ → Action (Bool × ReadFile)
seek file offset =
    if ltb maximum_offset offset
    then pure (false, file)
    else (ask >>= λ answer.
        if succeeds answer
        then pure (
          true,
          record { content = file.content; size = file.size; position = offset; flags = good },
        )
        else pure (false, stopped file))

module _ (paths : Paths) where
  -- `read(path, maximum)`.
  unfoldable pub read : Bytes → ℕ → Action Bytes
  unfolding open_read read_bytes
  read path maximum = do
    input ← open_read paths path
    require (not (ltb maximum input.size || ltb maximum_offset input.size))
        (file_error limit_exceeded)
    result ← read_bytes input (pos input.size)
    require (length result.0 == input.size) (file_error io_failure)
    pure result.0
