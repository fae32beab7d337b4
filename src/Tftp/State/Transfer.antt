-- ===== src/Tftp/State/Transfer.antt =====
-- tftp/state.rs: a client that acknowledges each block as it comes, and its steps.
mod Rest
pub mod Stuck
pub mod Download
use rack_director.Prelude.{
  ℕ, zero, suc, ◌+◌, ◌-◌, ◌*◌, ◌≤◌, ◌<◌, ◌≡◌, ◌≢◌, refl, sym, ap, subst, ◌∙◌, inl, inr, Bool, true,
  false, Bool-cases, Option, none, some, List, [], ◌∷◌, ◌++◌, append_assoc, append-nil, Bytes,
  Result, ok, err, ◌>>=◌, length, length-take, length-drop, take, drop, take-append-drop, drop_nil,
  ◌⊎◌, ltb, ltb→lt, ◌==◌, ==_iff, if◌then◌else◌, arith, min,
}
use rack_director.Tftp.Options.{TftpOption}
use rack_director.Tftp.Packet.{Packet, rrq, block_data, ack, oack}
use rack_director.Tftp.State.{
  Handler, ControlFlow, continue, closed, Reading, TransferState, option_negotiation, reading,
  complete, State, new, u16, negotiated_block_size, negotiate_options, lift_io, start_reading,
  handle_read_request, handle_option_ack_with_state, answer_request, handle_ack, read_next, finish,
  dispatch, handle,
}
use rack_director.Tftp.State.Integrity.{ReadsFiles}

-- The client: it acknowledges options by block 0 and each block by its number, and keeps the bytes.
-- `none` stands for a transfer that did not end in the given rounds, or ended with an error.
module _ {R : Type 0} (h : Handler R) where
  pub client : ℕ → State R × ControlFlow → Bytes → Option Bytes
  client zero _ received = none
  client (suc fuel) (s, continue (block_data block bytes)) received =
      client fuel (handle h s (ack block)) (received ++ bytes)
  client (suc fuel) (s, continue (oack _)) received = client fuel (handle h s (ack 0)) received
  client (suc fuel) (s, closed none) received = some received
  client (suc fuel) (s, _) received = none

  pub download : ℕ → Bytes → Bytes → List TftpOption → Option Bytes
  unfolding client
  download fuel filename mode options = client fuel (handle h new (rrq filename mode options)) []

  -- What the client has been answered after it acknowledged `n` packets; nothing changes once the
  -- connection is closed.
  abbrev pub acknowledged : ℕ → State R × ControlFlow → State R × ControlFlow
  acknowledged zero answer = answer
  acknowledged (suc n) (s, continue (block_data block _)) = acknowledged n (handle h s (ack block))
  acknowledged (suc n) (s, continue (oack _)) = acknowledged n (handle h s (ack 0))
  acknowledged (suc n) answer = answer

  pub client-zero : (sc : State R × ControlFlow) (received : Bytes) → client zero sc received ≡ none
  unfolding client
  client-zero sc received = refl

  pub client_block :
      (fuel : ℕ) (s : State R) (block : ℕ) (bytes received : Bytes)
      → client (suc fuel) (s, continue (block_data block bytes)) received
        ≡ client fuel (handle h s (ack block)) (received ++ bytes)
  unfolding client
  client_block fuel s block bytes received = refl

  pub client_oack :
      (fuel : ℕ) (s : State R) (os : List TftpOption) (received : Bytes)
      → client (suc fuel) (s, continue (oack os)) received
        ≡ client fuel (handle h s (ack 0)) received
  unfolding client
  client_oack fuel s os received = refl

  pub client-closed :
      (fuel : ℕ) (s : State R) (received : Bytes)
      → client (suc fuel) (s, closed none) received ≡ some received
  unfolding client
  client-closed fuel s received = refl

-- What a transfer needs beyond `ReadsFiles`: that the file opens, and that no read fails.
pub record IsReadable {R : Type 0} (h : Handler R) (filename : Bytes) : Type 1 where
  pub Ready : R → Type 0
  pub opens : (block_size : ℕ) → (r : R) × (h.create_reader filename block_size ≡ ok r) × Ready r
  pub reads : (r : R) → Ready r → (bytes : Bytes) × ((h.read r).1 ≡ ok bytes) × Ready (h.read r).0

abbrev pub at_state : {R : Type 0} → ℕ → TransferState R → State R
at_state m t = record { state = t; max_timeouts = m }

module _ {R : Type 0} (h : Handler R) where
  -- The transfer after the next block has been read.
  abbrev pub advanced : Reading R → Bytes → Reading R
  advanced r bytes = record r {
    timeouts = 0;
    block = u16 (r.block + 1);
    reader = (h.read r.reader).0;
    bytes = bytes;
  }

module _ {R : Type 0} (h : Handler R) (m : ℕ) where
  pub handle_last :
      (r : Reading R)
      → ltb (length r.bytes) r.block_size ≡ true
      → handle h (at_state m (reading r)) (ack r.block) ≡ (at_state m complete, closed none)
  unfolding handle dispatch handle_ack finish
  handle_last r l = rw ((==_iff r.block r.block).1 refl, l)

  pub handle_next :
      (r : Reading R) (bytes : Bytes)
      → ltb (length r.bytes) r.block_size ≡ false
      → (h.read r.reader).1 ≡ ok bytes
      → handle h (at_state m (reading r)) (ack r.block) ≡ (
        at_state m (
            reading (record r {
              timeouts = 0;
              block = u16 (r.block + 1);
              reader = (h.read r.reader).0;
              bytes = bytes;
            })),
        continue (block_data (u16 (r.block + 1)) bytes),
      )
  unfolding handle dispatch handle_ack read_next finish
  handle_next r bytes l g = rw ((==_iff r.block r.block).1 refl, l, read_next, g)
