-- ===== src/BootFiles/Downloads.antt =====
-- boot_files/filesystem.rs behind tftp/state.rs: whole downloads of boot files.
use rack_director.Prelude.{
  ℕ, ◌+◌, ◌<◌, ◌≡◌, sym, subst, ap, ◌∙◌, some, List, Bytes, ok, length, take,
}
use rack_director.Tftp.Options.{TftpOption}
use rack_director.Tftp.Reader.{TftpReader}
use rack_director.Tftp.Reader.Blocks.{IsSound, read-IsSound}
use rack_director.Tftp.State.{negotiated_block_size}
use rack_director.Tftp.State.Accepted.{accepted, negotiate_options-accepted}
use rack_director.Tftp.State.Transfer.{download, IsReadable}
use rack_director.Tftp.State.Transfer.Download.{download-content}
use rack_director.BootFiles.{
  FilePath, FileSystem, FilesystemBootFileProvider, join, boot_file_handler,
}
use rack_director.BootFiles.Confined.{
  IsBelow, opens_below, measures_below, boot_file_handler-ReadsFiles,
}

module _ (fs : FileSystem) (provider : FilesystemBootFileProvider) where
  reads_on :
      (r : TftpReader)
      → IsSound r.reads
      → (bytes : Bytes) × (((boot_file_handler fs provider).read r).1 ≡ ok bytes)
        × IsSound ((boot_file_handler fs provider).read r).0.reads
  unfolding boot_file_handler
  reads_on r sound =
      let (e, left, kept, still) = read-IsSound r sound in (take r.block_size r.file, e, still)

  -- A file whose coming reads do not fail can be opened and read to its end.
  boot_file-IsReadable :
      (filename bytes : Bytes) (path : FilePath)
      → fs.canonicalize (join provider.base_path filename) ≡ some path
      → fs.content path ≡ some bytes
      → IsBelow path provider.canonical_base_path
      → IsSound (fs.reads path)
      → IsReadable (boot_file_handler fs provider) filename
  boot_file-IsReadable filename bytes path c f below sound = record {
    Ready = λ r. IsSound r.reads;
    opens =
        λ block_size. (_, opens_below fs provider filename bytes path block_size c f below, sound);
    reads = reads_on;
  }

  -- A client that asks for a name that resolves to a file below the base directory, and acknowledges
  -- each block, gets the bytes of that file, within three rounds more than it has bytes, if no read
  -- of the file fails. The options may be any whose block size comes out above 0.
  pub download-served :
      (filename bytes mode : Bytes) (path : FilePath) (os : List TftpOption) (fuel : ℕ)
      → fs.canonicalize (join provider.base_path filename) ≡ some path
      → fs.content path ≡ some bytes
      → IsBelow path provider.canonical_base_path
      → IsSound (fs.reads path)
      → 0 < negotiated_block_size (boot_file_handler fs provider) (accepted (length bytes) os)
      → length bytes + 3 < fuel
      → download (boot_file_handler fs provider) fuel filename mode os ≡ some bytes
  download-served filename bytes mode path os fuel c f below sound positive enough =
      let (files, r, o, file, size, same, l, z) =
        boot_file_handler-ReadsFiles fs provider filename bytes path 512 c f below in
      download-content files (boot_file-IsReadable filename bytes path c f below sound) fuel mode os
        (accepted (length bytes) os)
        (negotiate_options-accepted (boot_file_handler fs provider) filename (length bytes) os
          (measures_below fs provider filename bytes path c f below))
        positive (subst (λ x. length x + 3 < fuel) (sym same) enough)
      ∙ ap some same
