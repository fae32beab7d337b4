-- ===== src/Examples/Memory.antt =====
-- A handler that serves one short file from memory, as a concrete instance of the traits of
-- tftp/handler.rs.
use rack_director.Prelude.{
  ℕ, ◌≡◌, refl, sym, ap, codes, Bytes, Result, ok, ok-injective, take, drop,
}
use rack_director.Tftp.State.{Handler}
use rack_director.Tftp.Reader.{IoError}
use rack_director.Tftp.State.Integrity.{ReadsFiles}
use rack_director.Tftp.State.Transfer.{IsReadable}

abbrev pub kernel : Bytes
kernel = codes "kernel"

abbrev pub opened_file : Bytes → ℕ → Result IoError (Bytes × ℕ)
opened_file name block_size = ok (kernel, block_size)

abbrev pub read_file : Bytes × ℕ → (Bytes × ℕ) × Result IoError Bytes
read_file (left, size) = ((drop size left, size), ok (take size left))

abbrev pub file_server : Handler (Bytes × ℕ)
file_server = record { create_reader = opened_file; filesize = λ name. ok 6; read = read_file }

pub read_file-next :
    (r : Bytes × ℕ) (bytes : Bytes)
    → (read_file r).1 ≡ ok bytes
    → (bytes ≡ take r.1 r.0) × ((read_file r).0.0 ≡ drop r.1 r.0) × ((read_file r).0.1 ≡ r.1)
read_file-next (left, size) bytes h = (sym (ok-injective h), refl, refl)

pub opened_file-same :
    (name : Bytes) (block_size : ℕ) (r : Bytes × ℕ)
    → opened_file name block_size ≡ ok r
    → (r.0 ≡ kernel) × (r.1 ≡ block_size)
opened_file-same name block_size r h =
    let same : (kernel, block_size) ≡ r = ok-injective h in
    (sym (ap (λ x. x.0) same), sym (ap (λ x. x.1) same))

abbrev pub file_server-ReadsFiles : ReadsFiles file_server
file_server-ReadsFiles = record {
  content = λ name. kernel;
  left = λ r. r.0;
  size = λ r. r.1;
  opened = opened_file-same;
  next_block = read_file-next;
}

pub read_file-some : (r : Bytes × ℕ) → (bytes : Bytes) × ((read_file r).1 ≡ ok bytes) × Unit {0}
read_file-some (left, size) = (take size left, refl, tt)

abbrev pub file_server-IsReadable : (name : Bytes) → IsReadable file_server name
file_server-IsReadable name = record {
  Ready = λ r. Unit;
  opens = λ block_size. ((kernel, block_size), refl, tt);
  reads = λ r ready. read_file-some r;
}
