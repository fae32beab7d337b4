-- ===== src/Tftp/State/Integrity/Files.antt =====
-- tftp/state.rs: what a transfer knows of the file that it sends.
use rack_director.Prelude.{
  ℕ, zero, suc, ◌+◌, ◌*◌, ◌≡◌, refl, sym, ap, subst, ◌∙◌, List, [], ◌∷◌, Bytes, ok, take, drop,
  drop_nil, arith,
}
use rack_director.Tftp.Packet.{Packet, block_data, oack}
use rack_director.Tftp.State.{
  Handler, ControlFlow, continue, closed, Reading, TransferState, uninitialized, option_negotiation,
  reading, complete, State, u16,
}

-- What the state machine relies on in a handler: a reader gives the bytes of its file in blocks of
-- the size that it was opened with.
pub record ReadsFiles {R : Type 0} (h : Handler R) : Type 0 where
  pub content : Bytes → Bytes
  pub left : R → Bytes
  pub size : R → ℕ
  pub opened :
      (filename : Bytes) (block_size : ℕ) (r : R)
      → h.create_reader filename block_size ≡ ok r
      → (left r ≡ content filename) × (size r ≡ block_size)
  pub next_block :
      (r : R) (bytes : Bytes)
      → (h.read r).1 ≡ ok bytes
      → (bytes ≡ take (size r) (left r))
        × (left (h.read r).0 ≡ drop (size r) (left r))
        × (size (h.read r).0 ≡ size r)

-- The block of a file with index `n`, from 0.
pub block_of : Bytes → ℕ → ℕ → Bytes
block_of file size n = take size (drop (n * size) file)

zero_plus : (m : ℕ) → m ≡ 0 + m
zero_plus m = omega arith

suc_plus : (n m : ℕ) → suc (n + m) ≡ suc n + m
suc_plus n m = omega arith

pub drop-drop {ℓ} : {A : Type ℓ} (m n : ℕ) (xs : List A) → drop m (drop n xs) ≡ drop (n + m) xs
drop-drop m zero xs = subst (λ k. drop m xs ≡ drop k xs) (zero_plus m) refl
drop-drop m (suc n) [] = drop_nil m ∙ sym (drop_nil (suc n + m))
drop-drop m (suc n) (x ∷ xs) =
    subst (λ k. drop m (drop n xs) ≡ drop k (x ∷ xs)) (suc_plus n m) (drop-drop m n xs)

block_start : (size : ℕ) (file : Bytes) → file ≡ drop (0 * size) file
block_start size file = subst (λ k. file ≡ drop k file) (zero_times size) refl
  where
    zero_times : (m : ℕ) → 0 ≡ 0 * m
    zero_times m = omega arith

block_end : (size : ℕ) (file : Bytes) → drop size file ≡ drop ((0 + 1) * size) file
block_end size file = subst (λ k. drop size file ≡ drop k file) (one_times size) refl
  where
    one_times : (m : ℕ) → m ≡ (0 + 1) * m
    one_times m = omega arith

block_after :
    (n size : ℕ) (file : Bytes)
    → drop size (drop ((n + 1) * size) file) ≡ drop ((n + 1 + 1) * size) file
block_after n size file =
    drop-drop size ((n + 1) * size) file
    ∙ subst (λ k. drop k file ≡ drop ((n + 1 + 1) * size) file) (times n size) refl
  where
    times : (n m : ℕ) → (n + 1 + 1) * m ≡ (n + 1) * m + m
    times n m = omega arith

module _ {R : Type 0} {h : Handler R} (files : ReadsFiles h) where
  open files use {content, left, size}

  -- The transfer has read the block of index `n`, and has not yet seen it acknowledged.
  pub record IsAt (r : Reading R) (n : ℕ) : Type 0 where
    pub number : r.block ≡ u16 (n + 1)
    pub current : r.bytes ≡ block_of (content r.filename) r.block_size n
    pub behind : left r.reader ≡ drop ((n + 1) * r.block_size) (content r.filename)
    pub opened_with : size r.reader ≡ r.block_size

  abbrev pub IsSending : TransferState R → Type 0
  IsSending uninitialized = Unit
  IsSending (option_negotiation _) = Unit
  IsSending (reading r) = (n : ℕ) × IsAt r n
  IsSending complete = Unit

  -- A packet that keeps the connection open is the state's own block, or its own options.
  abbrev pub Delivers : TransferState R → Packet → Type 0
  Delivers (option_negotiation n) p = p ≡ oack n.negotiated_options
  Delivers (reading r) p = (p ≡ block_data r.block r.bytes) × ((n : ℕ) × IsAt r n)
  Delivers _ p = ⊥

  -- What the rest of the connection meets: a packet that goes out is the state's own.
  abbrev pub IsGood : State R × ControlFlow → Type 0
  IsGood (s, continue p) = Delivers s.state p
  IsGood (s, closed _) = Unit

  pub Delivers-IsSending : (t : TransferState R) (p : Packet) → Delivers t p → IsSending t
  Delivers-IsSending uninitialized p d = tt
  Delivers-IsSending (option_negotiation n) p d = tt
  Delivers-IsSending (reading r) p d = d.1
  Delivers-IsSending complete p d = tt

  -- The first block, from a reader that has just been opened.
  pub first-IsAt :
      (filename mode bytes : Bytes) (size' : ℕ) (r : R)
      → h.create_reader filename size' ≡ ok r
      → (h.read r).1 ≡ ok bytes
      → IsAt
          (record {
            filename = filename;
            mode = mode;
            block = 1;
            reader = (h.read r).0;
            bytes = bytes;
            timeouts = 0;
            block_size = size';
          })
          0
  unfolding block_of
  first-IsAt filename mode bytes size' r o g =
      let (l, z) = files.opened filename size' r o in
      let (b, k, w) = files.next_block r bytes g in
      record {
        number = refl;
        current =
            b
            ∙ ap (λ n. take n (left r)) z
            ∙ ap (take size') (l ∙ block_start size' (content filename));
        behind = k ∙ rw (z, l) (block_end size' (content filename));
        opened_with = w ∙ z;
      }

  -- The next block, after the current one.
  pub next-IsAt :
      (r : Reading R) (n : ℕ) (bytes : Bytes)
      → IsAt r n
      → (h.read r.reader).1 ≡ ok bytes
      → IsAt
          (record r {
            timeouts = 0;
            block = u16 (r.block + 1);
            reader = (h.read r.reader).0;
            bytes = bytes;
          })
          (n + 1)
  unfolding block_of
  next-IsAt r n bytes a g =
      let (b, k, w) = files.next_block r.reader bytes g in
      record {
        number = rw a.number (omega arith);
        current =
            b ∙ ap (λ k. take k (left r.reader)) a.opened_with ∙ ap (take r.block_size) a.behind;
        behind = k ∙ rw (a.opened_with, a.behind) (block_after n r.block_size (content r.filename));
        opened_with = w ∙ a.opened_with;
      }
