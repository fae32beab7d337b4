-- ===== src/Examples/Files.antt =====
-- The provider of boot_files/filesystem.rs over a file system with one file.
use rack_director.Prelude.{
  ◌≡◌, ◌<◌, ◌+◌, length, arith, refl, none, some, [], ◌∷◌, codes, ok, str_eq, if◌then◌else◌, take,
  drop,
}
use rack_director.Tftp.Reader.{TftpReader, offers, read}
use rack_director.Tftp.Reader.Blocks.{IsSound, read-block, read-IsSound}
use rack_director.Tftp.Options.{blk_size}
use rack_director.Tftp.State.{negotiated_block_size}
use rack_director.Tftp.State.Accepted.{accepted}
use rack_director.Tftp.State.Transfer.{download}
use rack_director.BootFiles.Downloads.{download-served}
use rack_director.Tftp.State.Integrity.{ReadsFiles}
use rack_director.BootFiles.{
  FilePath, FileSystem, FilesystemBootFileProvider, boot_file_handler, join,
  validate_and_resolve_path, starts_with,
}
use rack_director.BootFiles.Confined.{IsBelow, create_reader-IsBelow, boot_file_handler-ReadsFiles}

abbrev base : FilePath
base = codes "srv" ∷ []

abbrev kernel_path : FilePath
kernel_path = codes "srv" ∷ codes "vmlinuz" ∷ []

abbrev disk : FileSystem
disk = record {
  canonicalize = λ name. if str_eq name (codes "/srv/vmlinuz") then some kernel_path else none;
  content = λ path. some (codes "kernel");
  reads = λ path. offers 4 ∷ offers 4 ∷ [];
}

abbrev provider : FilesystemBootFileProvider
provider = record { base_path = codes "/srv"; canonical_base_path = base }

abbrev opened : TftpReader
opened = record { file = codes "kernel"; block_size = 512; reads = offers 4 ∷ offers 4 ∷ [] }

opens : (boot_file_handler disk provider).create_reader (codes "vmlinuz") 512 ≡ ok opened
unfolding boot_file_handler str_eq join validate_and_resolve_path starts_with
opens = refl

create_reader-IsBelow_example :
    (path : FilePath) × (disk.canonicalize (join provider.base_path (codes "vmlinuz")) ≡ some path)
    × IsBelow path provider.canonical_base_path
    × (disk.content path ≡ some opened.file)
    × (opened.block_size ≡ 512)
create_reader-IsBelow_example =
    create_reader-IsBelow disk provider (codes "vmlinuz") 512 opened opens

resolves : disk.canonicalize (join provider.base_path (codes "vmlinuz")) ≡ some kernel_path
unfolding join str_eq
resolves = refl

kernel_path-IsBelow : IsBelow kernel_path provider.canonical_base_path
unfolding IsBelow
kernel_path-IsBelow = (codes "vmlinuz" ∷ [], refl)

boot_file_handler-ReadsFiles_example :
    (files : ReadsFiles (boot_file_handler disk provider)) × (r : TftpReader) × ((boot_file_handler
          disk provider).create_reader
        (codes "vmlinuz")
        512
      ≡ ok r)
    × (r.file ≡ codes "kernel")
    × (r.block_size ≡ 512)
    × (files.content (codes "vmlinuz") ≡ codes "kernel")
    × (files.left r ≡ codes "kernel")
    × (files.size r ≡ 512)
boot_file_handler-ReadsFiles_example =
    boot_file_handler-ReadsFiles disk provider (codes "vmlinuz") (codes "kernel") kernel_path 512
      resolves refl kernel_path-IsBelow

fours_positive :
    0
    < negotiated_block_size
        (boot_file_handler disk provider)
        (accepted (length (codes "kernel")) (blk_size 4 ∷ []))
unfolding negotiated_block_size
fours_positive = omega arith

kernel_is_short : length (codes "kernel") + 3 < 20
kernel_is_short = omega arith

download-served_example :
    download
      (boot_file_handler disk provider)
      20
      (codes "vmlinuz")
      (codes "octet")
      (blk_size 4 ∷ [])
    ≡ some (codes "kernel")
download-served_example =
    download-served disk provider (codes "vmlinuz") (codes "kernel") (codes "octet") kernel_path
      (blk_size 4 ∷ []) 20 resolves refl kernel_path-IsBelow tt fours_positive kernel_is_short

reads_all : (read opened).1 ≡ ok (codes "kernel")
unfolding read
reads_all = refl

read-block_example :
    (codes "kernel" ≡ take 512 (codes "kernel"))
    × ((read opened).0.file ≡ drop 512 (codes "kernel"))
    × ((read opened).0.block_size ≡ 512)
read-block_example = read-block opened (codes "kernel") reads_all

read-IsSound_example :
    ((read opened).1 ≡ ok (take 512 (codes "kernel")))
    × ((read opened).0.file ≡ drop 512 (codes "kernel"))
    × ((read opened).0.block_size ≡ 512)
    × IsSound (read opened).0.reads
read-IsSound_example = read-IsSound opened tt
