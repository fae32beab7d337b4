-- ===== src/Tftp/State/Transfer/Stuck.antt =====
-- tftp/state.rs: a transfer whose blocks have no bytes.
use rack_director.Prelude.{
  ℕ, zero, suc, ◌+◌, ◌≡◌, ap, ◌∙◌, [], Bytes, ok, take, length, ltb, false, arith,
}
use rack_director.Tftp.Packet.{block_data}
use rack_director.Tftp.State.{Handler, ControlFlow, continue, Reading, reading, State, u16}
use rack_director.Tftp.State.Integrity.{ReadsFiles}
use rack_director.Tftp.State.Transfer.{acknowledged, IsReadable, at_state, advanced, handle_next}

never_short : (n block_size : ℕ) → block_size ≡ 0 → ltb n block_size ≡ false
never_short n block_size z = ground arith

module _ {R : Type 0} where
  -- The answer is an empty block under the number of `n`, modulo 2^16, and the connection is open.
  abbrev pub IsEmptyBlock : ℕ → State R × ControlFlow → Type 0
  IsEmptyBlock n answer = (s : State R) × (answer ≡ (s, continue (block_data (u16 n) [])))

module _ {R : Type 0} {h : Handler R} (files : ReadsFiles h) {filename : Bytes}
    (readable : IsReadable h filename) where
  -- The transfer is at the empty block `n`, and its reader reads no bytes.
  pub record IsStuck (n : ℕ) (r : Reading R) : Type 0 where
    pub ready : readable.Ready r.reader
    pub empty : r.bytes ≡ []
    pub number : r.block ≡ u16 n
    pub no_room : r.block_size ≡ 0
    pub reads_nothing : files.size r.reader ≡ 0

  pub no_bytes : (r : R) (bytes : Bytes) → files.size r ≡ 0 → (h.read r).1 ≡ ok bytes → bytes ≡ []
  no_bytes r bytes z g =
      let (b, k, w) = files.next_block r bytes g in b ∙ ap (λ n. take n (files.left r)) z

  advanced-IsStuck :
      (n : ℕ) (r : Reading R) (bytes : Bytes)
      → IsStuck n r
      → (h.read r.reader).1 ≡ ok bytes
      → readable.Ready (h.read r.reader).0
      → IsStuck (suc n) (advanced h r bytes)
  advanced-IsStuck n r bytes i g k =
      let (b, l, w) = files.next_block r.reader bytes g in
      record {
        ready = k;
        empty = no_bytes r.reader bytes i.reads_nothing g;
        number = omega (arith, i.number);
        no_room = i.no_room;
        reads_nothing = w ∙ i.reads_nothing;
      }

  zero_plus : (n : ℕ) → n ≡ 0 + n
  zero_plus n = omega arith

  pub stuck-IsEmptyBlock :
      (rounds m n : ℕ) (r : Reading R)
      → IsStuck n r
      → IsEmptyBlock
          (rounds + n)
          (acknowledged h rounds (at_state m (reading r), continue (block_data r.block r.bytes)))
  stuck-IsEmptyBlock zero m n r i = (
    at_state m (reading r),
    ap (λ x. (at_state m (reading r), continue x))
        (ap (λ b. block_data b r.bytes) i.number
          ∙ ap (block_data (u16 n)) i.empty
          ∙ ap (λ x. block_data (u16 x) []) (zero_plus n)),
  )
  stuck-IsEmptyBlock (suc rounds) m n r i =
      let (bytes, g, k) = readable.reads r.reader i.ready in
      let (s, e) =
        stuck-IsEmptyBlock rounds m (suc n) (advanced h r bytes)
          (advanced-IsStuck n r bytes i g k) in
      (
        s,
        ap (acknowledged h rounds)
              (handle_next h m r bytes (never_short (length r.bytes) r.block_size i.no_room) g)
            ∙ e
            ∙ ap (λ x. (s, continue (block_data (u16 x) []))) (omega arith),
      )
