-- ===== src/Tftp/Reader/Blocks.antt =====
-- tftp/mod.rs: what a read returns does not depend on how the operating system cuts its reads.
use rack_director.Prelude.{
  ℕ, zero, suc, ◌+◌, ◌-◌, ◌≤◌, ◌<◌, ◌≡◌, refl, sym, ap, subst, ◌∙◌, List, [], ◌∷◌, ◌++◌,
  append_assoc, append-nil, Bytes, length, length-append, length-take, take, drop, drop_nil, ltb→lt,
  take-append-drop, min, Result, ok, err, arith, ltb, Bool-cases, inl, inr,
}
use rack_director.Tftp.Reader.{
  IoError, OsRead, offers, fails, TftpReader, os_read_as, os_read, after_read, fill, read,
}

module _ {ℓ} {A : Type ℓ} where
  abbrev nothing : List A
  nothing = []

  take_past :
      (xs ys : List A) (n : ℕ) → length xs ≤ n → take n (xs ++ ys) ≡ xs ++ take (n - length xs) ys
  take_past [] ys n h = ap (λ m. take m ys) (omega arith)
  take_past (x ∷ xs) ys zero h = absurd (omega arith)
  take_past (x ∷ xs) ys (suc n) h =
      ap (◌∷◌ x) (take_past xs ys n (omega arith) ∙ ap (λ m. xs ++ take m ys) (omega arith))

  drop_past : (xs ys : List A) (n : ℕ) → length xs ≤ n → drop n (xs ++ ys) ≡ drop (n - length xs) ys
  drop_past [] ys n h = ap (λ m. drop m ys) (omega arith)
  drop_past (x ∷ xs) ys zero h = absurd (omega arith)
  drop_past (x ∷ xs) ys (suc n) h =
      drop_past xs ys n (omega arith) ∙ ap (λ m. drop m ys) (omega arith)

  take_nil : (n : ℕ) → take n (nothing) ≡ nothing
  take_nil zero = refl
  take_nil (suc n) = refl

  take_empty : (n : ℕ) (xs : List A) → 0 < n → take n xs ≡ [] → xs ≡ []
  take_empty zero xs p h = absurd (omega arith)
  take_empty (suc n) [] p h = refl
  take_empty (suc n) (x ∷ xs) p h = cc

ok_injective : {a b : Bytes} → ◌≡◌ {A = Result IoError Bytes} (ok a) (ok b) → a ≡ b
ok_injective h = cc

-- A read that succeeds splits a piece of at most `room` bytes off the file, and the piece is empty
-- only at the end of the file or where there is no room.
record Splits (room : ℕ) (r r' : TftpReader) (piece : Bytes) : Type 0 where
  whole : piece ++ r'.file ≡ r.file
  fits : length piece ≤ room
  ends : piece ≡ [] → 0 < room → r.file ≡ []
  same : r'.block_size ≡ r.block_size

Splits-take :
    (room n : ℕ) (r r' : TftpReader)
    → n ≤ room
    → (0 < room → 0 < n)
    → r'.file ≡ drop n r.file
    → r'.block_size ≡ r.block_size
    → Splits room r r' (take n r.file)
Splits-take room n r r' h p f b = record {
  whole = rw f (take-append-drop n r.file);
  fits = omega (arith, length-take n r.file);
  ends = λ e k. take_empty n r.file (p k) e;
  same = b;
}

os_read_as-Splits :
    (reads : List OsRead) (room : ℕ) (r : TftpReader) (piece : Bytes)
    → (os_read_as reads room r).1 ≡ ok piece
    → Splits room r (os_read_as reads room r).0 piece
unfolding os_read_as
os_read_as-Splits [] room r piece h =
    subst (Splits room r _) (ok_injective h)
      (Splits-take room room r _ (omega arith) (λ k. k) refl refl)
os_read_as-Splits (fails ∷ rest) room r piece h = cc
os_read_as-Splits (offers n ∷ rest) room r piece h =
    subst (Splits room r _) (ok_injective h)
      (Splits-take room (min room (n + 1)) r _ (omega arith) (λ k. omega arith) refl refl)

os_read-Splits :
    (room : ℕ) (r : TftpReader) (piece : Bytes)
    → (os_read room r).1 ≡ ok piece
    → Splits room r (os_read room r).0 piece
unfolding os_read
os_read-Splits room r piece h = os_read_as-Splits r.reads room r piece h

-- `chunk` has been read, and `rest` bytes of the block are still missing.
record Filled (missing : ℕ) (chunk : Bytes) (r r' : TftpReader) (result : Bytes) : Type 0 where
  data_read : result ≡ chunk ++ take missing r.file
  file_left : r'.file ≡ drop missing r.file
  size_kept : r'.block_size ≡ r.block_size

Splits-Filled :
    (missing : ℕ) (chunk piece : Bytes) (r r' r'' : TftpReader) (result : Bytes)
    → Splits missing r r' piece
    → Filled (missing - length piece) (chunk ++ piece) r' r'' result
    → Filled missing chunk r r'' result
Splits-Filled missing chunk piece r r' r'' result s f = record {
  data_read =
      f.data_read
      ∙ append_assoc chunk piece _
      ∙ ap (◌++◌ chunk) (sym (take_past piece r'.file missing s.fits) ∙ ap (take missing) s.whole);
  file_left =
      f.file_left ∙ sym (drop_past piece r'.file missing s.fits) ∙ ap (drop missing) s.whole;
  size_kept = f.size_kept ∙ s.same;
}

minus_zero : (m : ℕ) → m - 0 ≡ m
minus_zero m = omega arith

Filled-end :
    (missing : ℕ) (chunk : Bytes) (r r' : TftpReader)
    → Splits missing r r' []
    → 0 < missing
    → Filled missing chunk r r' chunk
Filled-end missing chunk r r' s p =
    let z : r.file ≡ [] = s.ends refl p in
    record {
      data_read = rw (z, take_nil missing) (sym (append-nil chunk));
      file_left = s.whole ∙ z ∙ sym (ap (drop missing) z ∙ drop_nil missing);
      size_kept = s.same;
    }

Filled-full :
    (missing : ℕ) (chunk : Bytes) (r : TftpReader) → missing ≡ 0 → Filled missing chunk r r chunk
Filled-full missing chunk r z =
    rw z (record { data_read = sym (append-nil chunk); file_left = refl; size_kept = refl })

module _ (fuel size : ℕ) (result : Bytes) where
  abbrev FillsTo : Type 0
  FillsTo =
      (chunk : Bytes) (r : TftpReader)
      → length chunk ≤ size
      → size - length chunk < fuel
      → (fill fuel size chunk r).1 ≡ ok result
      → Filled (size - length chunk) chunk r (fill fuel size chunk r).0 result

  after_read-Filled :
      (chunk : Bytes) (r r' : TftpReader) (got : Result IoError Bytes)
      → FillsTo
      → length chunk < size
      → size - length chunk < suc fuel
      → ((piece : Bytes) → got ≡ ok piece → Splits (size - length chunk) r r' piece)
      → (after_read (fill fuel size) chunk r' got).1 ≡ ok result
      → Filled (size - length chunk) chunk r (after_read (fill fuel size) chunk r' got).0 result
  unfolding after_read
  after_read-Filled chunk r r' (err e) ih l f s h = cc
  after_read-Filled chunk r r' (ok []) ih l f s h =
      subst (Filled _ chunk r r') (ok_injective h)
        (Filled-end _ chunk r r' (s [] refl) (omega arith))
  after_read-Filled chunk r r' (ok (b ∷ bs)) ih l f s h =
      Splits-Filled _ chunk (b ∷ bs) r r' _ result (s (b ∷ bs) refl) (
        subst (λ m. Filled m (chunk ++ b ∷ bs) r' (fill fuel size (chunk ++ b ∷ bs) r').0 result)
          (omega (arith, length-append chunk (b ∷ bs)))
          (ih (chunk ++ b ∷ bs) r'
            (omega (arith, length-append chunk (b ∷ bs), (s (b ∷ bs) refl).fits))
            (omega (arith, length-append chunk (b ∷ bs))) h))

fill-Filled : (fuel size : ℕ) (result : Bytes) → FillsTo fuel size result
unfolding fill
fill-Filled zero size result chunk r l f h = absurd (omega arith)
fill-Filled (suc fuel) size result chunk r l f h = elim (Bool-cases (ltb (length chunk) size)) [
  | inl t ↦ rw t (
      after_read-Filled fuel size result chunk r _ _ (fill-Filled fuel size result) (ltb→lt _ _ t) f
        (os_read-Splits (size - length chunk) r) (rw t at h))
  | inr t ↦
      rw t (
        subst (Filled _ chunk r r) (ok_injective (rw t at h))
          (Filled-full _ chunk r (ground arith)))
]

-- However the operating system cuts its reads, a read that succeeds returns the next block of the
-- file, shorter only at the end, and leaves the rest with the same block size.
pub read-block :
    (r : TftpReader) (block : Bytes)
    → (read r).1 ≡ ok block
    → (block ≡ take r.block_size r.file)
      × ((read r).0.file ≡ drop r.block_size r.file)
      × ((read r).0.block_size ≡ r.block_size)
unfolding read
read-block r block h =
    let f = fill-Filled (r.block_size + 1) r.block_size block [] r (omega arith) (omega arith) h in
    let g =
      subst (λ m. Filled m [] r (fill (r.block_size + 1) r.block_size [] r).0 block)
        (minus_zero r.block_size) f in
    (g.data_read, g.file_left, g.size_kept)

-- No coming read fails.
abbrev pub IsSound : List OsRead → Type 0
IsSound [] = Unit
IsSound (offers n ∷ rest) = IsSound rest
IsSound (fails ∷ rest) = ⊥

-- An operation that returned a value leaves a sound reader.
abbrev Succeeds : TftpReader × Result IoError Bytes → Type 0
Succeeds (r, err e) = ⊥
Succeeds (r, ok b) = IsSound r.reads

os_read_as-Succeeds :
    (reads : List OsRead) (room : ℕ) (r : TftpReader)
    → r.reads ≡ reads
    → IsSound reads
    → Succeeds (os_read_as reads room r)
unfolding os_read_as
os_read_as-Succeeds [] room r e s = rw e s
os_read_as-Succeeds (offers n ∷ rest) room r e s = s
os_read_as-Succeeds (fails ∷ rest) room r e s = s

after_read-Succeeds :
    (again : Bytes → TftpReader → TftpReader × Result IoError Bytes)
    → ((chunk : Bytes) (r : TftpReader) → IsSound r.reads → Succeeds (again chunk r))
    → (chunk : Bytes) (r : TftpReader) (got : Result IoError Bytes) → Succeeds (r, got)
    → Succeeds (after_read again chunk r got)
unfolding after_read
after_read-Succeeds again h chunk r (err e) s = s
after_read-Succeeds again h chunk r (ok []) s = s
after_read-Succeeds again h chunk r (ok (b ∷ bs)) s = h (chunk ++ b ∷ bs) r s

fill-Succeeds :
    (fuel size : ℕ) (chunk : Bytes) (r : TftpReader)
    → IsSound r.reads
    → Succeeds (fill fuel size chunk r)
unfolding fill
fill-Succeeds zero size chunk r s = s
fill-Succeeds (suc fuel) size chunk r s = elim (Bool-cases (ltb (length chunk) size)) [
  | inl t ↦ rw t (
      after_read-Succeeds (fill fuel size) (fill-Succeeds fuel size) chunk
        (os_read (size - length chunk) r).0 (os_read (size - length chunk) r).1
        (os_read_as-Succeeds r.reads (size - length chunk) r refl s))
  | inr t ↦ rw t s
]

Succeeds-parts :
    (p : TftpReader × Result IoError Bytes)
    → Succeeds p
    → ((b : Bytes) × (p.1 ≡ ok b)) × IsSound p.0.reads
Succeeds-parts (r, ok b) s = ((b, refl), s)
Succeeds-parts (r, err e) s = absurd s

-- Where none of the coming reads of the operating system fails, a read succeeds: it returns the next
-- block of the file, shorter only at the end, leaves the rest with the same block size, and again
-- none of the reads that come after it fails.
pub read-IsSound :
    (r : TftpReader)
    → IsSound r.reads
    → ((read r).1 ≡ ok (take r.block_size r.file))
      × ((read r).0.file ≡ drop r.block_size r.file)
      × ((read r).0.block_size ≡ r.block_size)
      × IsSound (read r).0.reads
unfolding read
read-IsSound r s =
    let ((block, e), sound) =
      Succeeds-parts (read r) (fill-Succeeds (r.block_size + 1) r.block_size [] r s) in
    let (next, left, kept) = read-block r block e in (e ∙ ap ok next, left, kept, sound)
