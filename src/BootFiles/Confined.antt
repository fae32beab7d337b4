-- ===== src/BootFiles/Confined.antt =====
-- boot_files/filesystem.rs: what the handler serves, and what it never does.
use mathlib.Core.Path.{ap₂}
use rack_director.Prelude.{
  ℕ, ◌≡◌, refl, sym, ap, subst, ◌∙◌, inl, inr, Bool, true, ◌&&◌, Bool-cases, Option, none, some, [],
  ◌∷◌, ◌++◌, Bytes, str_eq, str_eq_iff, >>=-eq-ok, ok_or-eq-ok, ok-injective, ok, ok_or, arith,
  length,
}
use rack_director.Tftp.Reader.{not_found, TftpReader}
use rack_director.Tftp.Reader.Blocks.{read-block}
use rack_director.Tftp.State.Integrity.{ReadsFiles}
use rack_director.BootFiles.{
  FilePath, FileSystem, FilesystemBootFileProvider, join, starts_with, confine,
  validate_and_resolve_path, open_reader, file_length, boot_file_handler,
}

-- A path below a directory is the directory's path with components after it.
unfoldable pub IsBelow : FilePath → FilePath → Type 0
IsBelow path base = (rest : FilePath) × (path ≡ base ++ rest)

&&-parts : (a b : Bool) → (a && b) ≡ true → (a ≡ true) × (b ≡ true)
&&-parts a b h = ground arith

starts_with-IsBelow : (path base : FilePath) → starts_with path base ≡ true → IsBelow path base
unfolding starts_with IsBelow
starts_with-IsBelow path [] h = (path, refl)
starts_with-IsBelow [] (b ∷ base) h = cc
starts_with-IsBelow (p ∷ path) (b ∷ base) h =
    let (same, below) = &&-parts (str_eq p b) (starts_with path base) h in
    let (rest, e) = starts_with-IsBelow path base below in
    (rest, ap₂ ◌∷◌ ((str_eq_iff p b).0 same) e)

confine-IsBelow :
    (base q path : FilePath) → confine base q ≡ ok path → (q ≡ path) × IsBelow path base
unfolding confine
confine-IsBelow base q path h = elim (Bool-cases (starts_with q base)) [
  | inl b ↦
      let e : q ≡ path = ok-injective (rw (b, confine) at h) in
      (e, subst (λ x. IsBelow x base) e (starts_with-IsBelow q base b))
  | inr b ↦ let bad = rw (b, confine) at h in cc
]

IsBelow-starts_with : (path base : FilePath) → IsBelow path base → starts_with path base ≡ true
unfolding starts_with IsBelow
IsBelow-starts_with path [] below = refl
IsBelow-starts_with [] (b ∷ base) (rest, e) = cc
IsBelow-starts_with (p ∷ path) (b ∷ base) (rest, e) =
    let same : str_eq p b ≡ true = (str_eq_iff p b).1 cc in
    let tail : starts_with path base ≡ true = IsBelow-starts_with path base (rest, cc) in
    rw (same, tail)

module _ (fs : FileSystem) (provider : FilesystemBootFileProvider) where
  resolved-IsBelow :
      (filename : Bytes) (path : FilePath)
      → validate_and_resolve_path fs provider filename ≡ ok path
      → (fs.canonicalize (join provider.base_path filename) ≡ some path)
        × IsBelow path provider.canonical_base_path
  unfolding validate_and_resolve_path
  resolved-IsBelow filename path h =
      let (q, c, k) =
        >>=-eq-ok (ok_or (fs.canonicalize (join provider.base_path filename)) not_found)
          (confine provider.canonical_base_path) path h in
      let (e, below) = confine-IsBelow provider.canonical_base_path q path k in
      (ok_or-eq-ok _ not_found q c ∙ ap some e, below)

  -- A reader that is opened reads the file at the resolved path, which is below the base directory,
  -- whatever the name and the links of the file system.
  pub create_reader-IsBelow :
      (filename : Bytes) (block_size : ℕ) (r : TftpReader)
      → (boot_file_handler fs provider).create_reader filename block_size ≡ ok r
      → (path : FilePath) × (fs.canonicalize (join provider.base_path filename) ≡ some path)
        × IsBelow path provider.canonical_base_path
        × (fs.content path ≡ some r.file)
        × (r.block_size ≡ block_size)
  unfolding boot_file_handler open_reader
  create_reader-IsBelow filename block_size r h =
      let (path, v, k) = >>=-eq-ok _ _ _ h in
      let (bytes, c, e) = >>=-eq-ok _ _ _ k in
      let (resolves, below) = resolved-IsBelow filename path v in
      (
        path,
        resolves,
        below,
        ok_or-eq-ok _ _ _ c ∙ ap (λ x. some x.file) (ok-injective e),
        ap (λ x. x.block_size) (sym (ok-injective e)),
      )

  -- The bytes that a name stands for; none where it cannot be opened.
  served : Bytes → Bytes
  served filename = contents (fs.canonicalize (join provider.base_path filename))
    where
      bytes_or_none : Option Bytes → Bytes
      bytes_or_none none = []
      bytes_or_none (some b) = b

      contents : Option FilePath → Bytes
      contents none = []
      contents (some path) = bytes_or_none (fs.content path)

  served_lem :
      (filename bytes : Bytes) (path : FilePath)
      → fs.canonicalize (join provider.base_path filename) ≡ some path
      → fs.content path ≡ some bytes
      → bytes ≡ served filename
  unfolding served
  served_lem filename bytes path c e = rw (c, e)

  -- The handler of the boot files reads a file as a transfer needs it: each read takes the next block
  -- of what is left.
  served_files : ReadsFiles (boot_file_handler fs provider)
  unfolding boot_file_handler
  served_files = record {
    content = served;
    left = λ r. r.file;
    size = λ r. r.block_size;
    opened = λ filename size r h.
        let (path, c, b, f, z) = create_reader-IsBelow filename size r h in
        (served_lem filename r.file path c f, z);
    next_block = λ r bytes h. read-block r bytes h;
  }

  resolves_below :
      (filename : Bytes) (path : FilePath)
      → fs.canonicalize (join provider.base_path filename) ≡ some path
      → IsBelow path provider.canonical_base_path
      → validate_and_resolve_path fs provider filename ≡ ok path
  unfolding validate_and_resolve_path confine
  resolves_below filename path c below =
      rw (c, confine, IsBelow-starts_with path provider.canonical_base_path below)

  pub opens_below :
      (filename bytes : Bytes) (path : FilePath) (block_size : ℕ)
      → fs.canonicalize (join provider.base_path filename) ≡ some path
      → fs.content path ≡ some bytes
      → IsBelow path provider.canonical_base_path
      → (boot_file_handler fs provider).create_reader filename block_size
        ≡ ok (record { file = bytes; block_size = block_size; reads = fs.reads path })
  unfolding boot_file_handler open_reader
  opens_below filename bytes path block_size c f below =
      rw (resolves_below filename path c below, f)

  pub measures_below :
      (filename bytes : Bytes) (path : FilePath)
      → fs.canonicalize (join provider.base_path filename) ≡ some path
      → fs.content path ≡ some bytes
      → IsBelow path provider.canonical_base_path
      → (boot_file_handler fs provider).filesize filename ≡ ok (length bytes)
  unfolding boot_file_handler file_length
  measures_below filename bytes path c f below = rw (resolves_below filename path c below, f)

  -- For any file system, the handler of the boot files reads files block by block, and a name that
  -- resolves to a file below the base directory is served with that file: it can be opened with any
  -- block size, and the reader starts at the front of the file, with blocks of that size.
  pub boot_file_handler-ReadsFiles :
      (filename bytes : Bytes) (path : FilePath) (block_size : ℕ)
      → fs.canonicalize (join provider.base_path filename) ≡ some path
      → fs.content path ≡ some bytes
      → IsBelow path provider.canonical_base_path
      → (files : ReadsFiles (boot_file_handler fs provider)) × (r : TftpReader)
        × ((boot_file_handler fs provider).create_reader filename block_size ≡ ok r)
        × (r.file ≡ bytes)
        × (r.block_size ≡ block_size)
        × (files.content filename ≡ bytes)
        × (files.left r ≡ bytes)
        × (files.size r ≡ block_size)
  unfolding served_files
  boot_file_handler-ReadsFiles filename bytes path block_size c f below = (
    served_files,
    record { file = bytes; block_size = block_size; reads = fs.reads path },
    opens_below filename bytes path block_size c f below,
    refl,
    refl,
    sym (served_lem filename bytes path c f),
    refl,
    refl,
  )
