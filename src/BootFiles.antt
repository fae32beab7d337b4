-- ===== src/BootFiles.antt =====
-- boot_files/filesystem.rs: the provider of boot files behind the TFTP server, and its check of
-- paths. The operating system resolves names: that is a parameter, of which nothing is assumed.
pub mod Confined
pub mod Downloads
use rack_director.Prelude.{
  ℕ, ◌+◌, ◌≡◌, Bool, true, false, ◌&&◌, Option, none, some, List, [], ◌∷◌, ◌++◌, Bytes, str_eq,
  Result, ok, err, ◌>>=◌, ok_or, length, ◌==◌, if◌then◌else◌,
}
use rack_director.Tftp.Reader.{IoError, not_found, failed, OsRead, TftpReader, read}
use rack_director.Tftp.State.{Handler}

-- A path as `Path::starts_with` reads it: the list of its components.
abbrev pub FilePath : Type 0
FilePath = List Bytes

-- `canonicalize` on the text of a path, the bytes of the file at a path, and how the system will cut
-- the reads of it.
pub record FileSystem : Type 0 where
  pub canonicalize : Bytes → Option FilePath
  pub content : FilePath → Option Bytes
  pub reads : FilePath → List OsRead

pub record FilesystemBootFileProvider : Type 0 where
  pub base_path : Bytes
  pub canonical_base_path : FilePath

-- `Path::join`: an absolute path takes the place of the base.
ends_with_slash : Bytes → Bool
ends_with_slash [] = false
ends_with_slash (c ∷ []) = c == b'/'
ends_with_slash (c ∷ d ∷ s) = ends_with_slash (d ∷ s)

is_absolute : Bytes → Bool
is_absolute [] = false
is_absolute (c ∷ s) = c == b'/'

unfoldable pub join : Bytes → Bytes → Bytes
unfolding ends_with_slash is_absolute
join base filename =
    if is_absolute filename
    then filename
    else if ends_with_slash base
    then base ++ filename
    else base ++ b'/' ∷ filename

-- `Path::starts_with` goes by whole components.
unfoldable pub starts_with : FilePath → FilePath → Bool
starts_with path [] = true
starts_with [] (b ∷ base) = false
starts_with (p ∷ path) (b ∷ base) = str_eq p b && starts_with path base

-- The security check.
confine : FilePath → FilePath → Result IoError FilePath
confine base path = if starts_with path base then ok path else err failed

module _ (fs : FileSystem) (provider : FilesystemBootFileProvider) where
  unfoldable pub validate_and_resolve_path : Bytes → Result IoError FilePath
  unfolding confine
  validate_and_resolve_path filename =
      ok_or (fs.canonicalize (join provider.base_path filename)) not_found
      >>= confine provider.canonical_base_path

  open_reader : Bytes → ℕ → Result IoError TftpReader
  unfolding validate_and_resolve_path
  open_reader filename block_size = validate_and_resolve_path filename >>= λ path.
      ok_or (fs.content path) not_found >>= λ bytes.
      ok (record { file = bytes; block_size = block_size; reads = fs.reads path })

  file_length : Bytes → Result IoError ℕ
  unfolding validate_and_resolve_path
  file_length filename = validate_and_resolve_path filename >>= λ path.
      ok_or (fs.content path) not_found >>= λ bytes. ok (length bytes)

  unfoldable pub boot_file_handler : Handler TftpReader
  unfolding open_reader file_length
  boot_file_handler = record { create_reader = open_reader; filesize = file_length; read = read }
