-- ===== src/Tftp/Reader.antt =====
-- tftp/mod.rs: `TftpReader`, which reads an open file in blocks. The file is the list of the bytes
-- that are left. The operating system may hand out fewer bytes than asked for: `reads` says, for
-- each coming read, how many it offers beyond the first, or that it fails; after that it offers all.
pub mod Blocks
use rack_director.Prelude.{
  ℕ, zero, suc, ◌+◌, ◌-◌, ◌≤◌, ◌<◌, ◌≡◌, refl, sym, ap, ◌∙◌, List, [], ◌∷◌, ◌++◌, append_assoc,
  append-nil, Bytes, length, take, drop, min, Result, ok, err, arith, ltb, ◌==◌, if◌then◌else◌,
  Bool-cases, inl, inr,
}

pub data IoError : Type 0 where
  not_found failed : IoError

pub data OsRead : Type 0 where
  offers : ℕ → OsRead
  fails : OsRead

pub record TftpReader : Type 0 where
  pub file : Bytes
  pub block_size : ℕ
  pub reads : List OsRead

-- `AsyncReadExt::read` into a buffer of `room` bytes.
os_read_as : List OsRead → ℕ → TftpReader → TftpReader × Result IoError Bytes
os_read_as [] room r = (record r { file = drop room r.file }, ok (take room r.file))
os_read_as (fails ∷ rest) room r = (record r { reads = rest }, err failed)
os_read_as (offers n ∷ rest) room r =
    let size = min room (n + 1) in
    (record r { file = drop size r.file; reads = rest }, ok (take size r.file))

os_read : ℕ → TftpReader → TftpReader × Result IoError Bytes
unfolding os_read_as
os_read room r = os_read_as r.reads room r

-- The body of the loop after its read: `again` is the next round.
after_read :
    (Bytes → TftpReader → TftpReader × Result IoError Bytes)
    → Bytes
    → TftpReader
    → Result IoError Bytes
    → TftpReader × Result IoError Bytes
after_read again chunk r (err e) = (r, err e)
after_read again chunk r (ok []) = (r, ok chunk)
after_read again chunk r (ok (b ∷ bs)) = again (chunk ++ b ∷ bs) r

-- The loop fills the chunk until it is full or a read returns nothing; each round adds a byte, so
-- `block_size + 1` rounds are enough.
fill : ℕ → ℕ → Bytes → TftpReader → TftpReader × Result IoError Bytes
unfolding after_read os_read
fill zero size chunk r = (r, ok chunk)
fill (suc fuel) size chunk r =
    let (r', got) = os_read (size - length chunk) r in
    let round = after_read (fill fuel size) chunk r' got in
    if ltb (length chunk) size then round else (r, ok chunk)

unfoldable pub read : TftpReader → TftpReader × Result IoError Bytes
unfolding fill
read r = fill (r.block_size + 1) r.block_size [] r
