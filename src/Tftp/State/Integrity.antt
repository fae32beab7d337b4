-- ===== src/Tftp/State/Integrity.antt =====
-- tftp/state.rs: which packets a transfer sends, after any history of packets and timeouts.
mod Files
mod Steps
mod Requests
pub use Files.*
pub use Steps.*
pub use Requests.*
use rack_director.Prelude.{
  ℕ, ◌+◌, ◌≡◌, refl, subst, Bytes, Option, some, none, List, [], ◌∷◌, ok, arith,
}
use rack_director.Tftp.Options.{TftpOption}
use rack_director.Tftp.Packet.{Packet, block_data}
use rack_director.Tftp.State.{
  Handler, ControlFlow, continue, Reading, TransferState, reading, option_negotiation,
  uninitialized, complete, State, new, u16, Event, respond, negotiate_options,
  negotiated_block_size, arrived, timed_out,
}

-- The states of an open connection, after a history of events, the newest in front: each event was
-- answered without closing.
pub data Reach {R : Type 0} (h : Handler R) : List Event → State R → Type 0 where
  start : Reach h [] new
  next :
      {history : List Event} {s : State R} (s' : State R) (e : Event) (q : Packet)
      → Reach h history s
      → respond h s e ≡ (s', continue q)
      → Reach h (e ∷ history) s'

module _ {R : Type 0} {h : Handler R} (files : ReadsFiles h) where
  respond-IsGood :
      (s : State R) (e : Event) → IsSending files s.state → IsGood files (respond h s e)
  unfolding respond
  respond-IsGood s (arrived p) i = handle-IsGood files s p i
  respond-IsGood s timed_out i = timeout-IsGood files s i

  -- In every state of an open connection, a transfer in progress is at a block of its file.
  pub Reach-IsSending :
      {history : List Event} {s : State R} → Reach h history s → IsSending files s.state
  unfolding new
  Reach-IsSending start = tt
  Reach-IsSending (next {s = s} s' e q r k) =
      Delivers-IsSending files s'.state q
        (subst (IsGood files) k (respond-IsGood s e (Reach-IsSending r)))

  -- In every such state, it is of the file that the first read request asked for.
  Reach-IsAsked :
      {history : List Event} {s : State R}
      → Reach h history s
      → IsAsked h (requested history) s.state
  unfolding new
  Reach-IsAsked start = refl
  Reach-IsAsked (next {history = history} {s = s} s' e q r k) =
      subst (StaysAsked h (requested (e ∷ history))) k
        (respond-StaysAsked h s (requested history) e (Reach-IsAsked r))

  -- `bytes` is a block of the file that was asked for, in the negotiated size, and `block` the number
  -- of that block.
  abbrev pub IsBlockOf : Option Request → ℕ → Bytes → Type 0
  IsBlockOf asked block bytes =
      (filename : Bytes) × (options : List TftpOption) × (asked ≡ some (filename, options))
      × ((negotiated : List TftpOption) × (negotiate_options h filename options ≡ ok negotiated)
          × ((n : ℕ) × (block ≡ u16 (n + 1))
              × (bytes ≡ block_of (files.content filename) (negotiated_block_size h negotiated) n)))

  Delivers-IsBlockOf :
      (asked : Option Request) (t : TransferState R) (block : ℕ) (bytes : Bytes)
      → IsAsked h asked t
      → Delivers files t (block_data block bytes)
      → IsBlockOf asked block bytes
  Delivers-IsBlockOf asked (reading r) block bytes (options, a, (negotiated, k, z)) (e, (n, at)) =
      (r.filename, options, a, (negotiated, k, (n, cc (at.number), cc (at.current))))
  Delivers-IsBlockOf asked (option_negotiation n) block bytes a e = cc
  Delivers-IsBlockOf asked uninitialized block bytes a e = absurd e
  Delivers-IsBlockOf asked complete block bytes a e = absurd e

  -- Over a handler that reads files block by block, whatever packets and timeouts came before on the
  -- open connection: the block that answers a packet or a timeout has the number of its index plus
  -- one, modulo 2^16, and holds the block at that index of the file that the first read request
  -- named, in the block size that was negotiated from the options of that request.
  pub respond-IsBlockOf :
      (history : List Event) (s s' : State R) (e : Event) (block : ℕ) (bytes : Bytes)
      → Reach h history s
      → respond h s e ≡ (s', continue (block_data block bytes))
      → IsBlockOf (requested (e ∷ history)) block bytes
  respond-IsBlockOf history s s' e block bytes r k =
      Delivers-IsBlockOf (requested (e ∷ history)) s'.state block bytes
        (Reach-IsAsked (next s' e (block_data block bytes) r k))
        (subst (IsGood files) k (respond-IsGood s e (Reach-IsSending r)))
