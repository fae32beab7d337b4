-- ===== src/Tftp/State/Integrity/Requests.antt =====
-- tftp/state.rs: the file and the block size of a transfer are those of its read request.
use rack_director.Prelude.{
  ℕ, ◌+◌, ◌≡◌, refl, inl, inr, Bool-cases, Option, none, some, List, [], ◌∷◌, Bytes, Result,
  Result-cases, ok, err, ◌>>=◌, length, ltb, ◌==◌,
}
use rack_director.Tftp.Reader.{IoError}
use rack_director.Tftp.Options.{TftpOption}
use rack_director.Tftp.Packet.{Packet, rrq, ack, failure}
use rack_director.Tftp.State.{
  Handler, ControlFlow, continue, closed, Reading, TransferState, uninitialized, option_negotiation,
  reading, complete, State, u16, u8, lift_io, start_reading, negotiate_options, answer_request,
  read_next, negotiated_block_size, handle_ack, dispatch, finish, handle, handle_timeout,
  handle_timeout_as, Event, arrived, timed_out, respond,
}

-- The name and the options of a read request.
abbrev pub Request : Type 0
Request = Bytes × List TftpOption

abbrev pub first_of : Option Request → Event → Option Request
first_of (some asked) _ = some asked
first_of none (arrived (rrq filename _ options)) = some (filename, options)
first_of none _ = none

-- The first read request of a history, whose newest event stands in front.
abbrev pub requested : List Event → Option Request
requested [] = none
requested (e ∷ history) = first_of (requested history) e

module _ {R : Type 0} (h : Handler R) where
  -- The transfer is of the file that was asked for, with the block size that was negotiated.
  abbrev pub IsAsked : Option Request → TransferState R → Type 0
  IsAsked asked uninitialized = asked ≡ none
  IsAsked asked (option_negotiation n) =
      (options : List TftpOption) × (asked ≡ some (n.filename, options))
      × (negotiate_options h n.filename options ≡ ok n.negotiated_options)
  IsAsked asked (reading r) =
      (options : List TftpOption) × (asked ≡ some (r.filename, options))
      × ((negotiated : List TftpOption) × (negotiate_options h r.filename options ≡ ok negotiated)
          × (r.block_size ≡ negotiated_block_size h negotiated))
  IsAsked asked complete = Unit

  -- That, where the connection stays open.
  abbrev pub StaysAsked : Option Request → State R × ControlFlow → Type 0
  StaysAsked asked (s, continue _) = IsAsked asked s.state
  StaysAsked asked (s, closed _) = Unit

  start_reading-StaysAsked :
      (s : State R) (filename mode : Bytes) (options negotiated : List TftpOption)
      → negotiate_options h filename options ≡ ok negotiated
      → StaysAsked
          (some (filename, options))
          (finish s (start_reading h filename mode (negotiated_block_size h negotiated)))
  unfolding start_reading finish lift_io
  start_reading-StaysAsked s filename mode options negotiated e =
      elim (Result-cases (h.create_reader filename (negotiated_block_size h negotiated))) [
        | inr (x, o) ↦ rw (o, lift_io) tt
        | inl (r, o) ↦ elim (Result-cases (h.read r).1) [
          | inr (x, g) ↦ rw (o, lift_io, ◌>>=◌, g) tt
          | inl (bytes, g) ↦ rw (o, lift_io, ◌>>=◌, g) (options, refl, (negotiated, e, refl))
        ]
      ]

  answer_request-StaysAsked :
      (s : State R) (filename mode : Bytes) (options : List TftpOption)
      → (negotiated : Result IoError (List TftpOption))
      → negotiate_options h filename options ≡ negotiated
      → StaysAsked (some (filename, options)) (finish s (answer_request h filename mode negotiated))
  unfolding answer_request finish negotiated_block_size
  answer_request-StaysAsked s filename mode options (err x) e = tt
  answer_request-StaysAsked s filename mode options (ok []) e =
      start_reading-StaysAsked s filename mode options [] e
  answer_request-StaysAsked s filename mode options (ok (o ∷ os)) e = (options, refl, e)

  -- An acknowledgement changes neither the name nor the block size.
  handle_ack-StaysAsked :
      (s : State R) (asked : Option Request) (r : Reading R) (acked_block : ℕ)
      → IsAsked asked (reading r)
      → StaysAsked asked (
          finish
            (record s { state = reading (handle_ack h r acked_block).0 })
            (handle_ack h r acked_block).1)
  unfolding handle_ack finish read_next
  handle_ack-StaysAsked s asked r acked_block a = elim (Bool-cases (acked_block == r.block)) [
    | inl e ↦ elim (Bool-cases (ltb (length r.bytes) r.block_size)) [
      | inl t ↦ rw (e, t) tt
      | inr t ↦ elim (Result-cases (h.read r.reader).1) [
        | inr (x, g) ↦ rw (e, t, read_next, g) tt
        | inl (bytes, g) ↦ rw (e, t, read_next, g) a
      ]
    ]
    | inr e ↦ elim (Bool-cases (acked_block == u16 (r.block + 65535))) [
      | inl p ↦ rw (e, p) a
      | inr p ↦ rw (e, p) tt
    ]
  ]

  dispatch-StaysAsked :
      (s : State R) (asked : Option Request) (t : TransferState R) (p : Packet)
      → IsAsked asked t
      → StaysAsked
          (first_of asked (arrived p))
          (finish (record s { state = (dispatch h t p).0 }) (dispatch h t p).1)
  unfolding dispatch finish
  dispatch-StaysAsked s none uninitialized (rrq filename mode options) a =
      answer_request-StaysAsked _ filename mode options (negotiate_options h filename options) refl
  dispatch-StaysAsked s (some asked) uninitialized (rrq filename mode options) a = cc
  dispatch-StaysAsked s asked uninitialized _ a = tt
  dispatch-StaysAsked s none (option_negotiation n) (ack block) (options, e, k) = cc
  dispatch-StaysAsked s (some asked) (option_negotiation n) (ack block) (options, e, k) =
      elim (Bool-cases (block == 0)) [
        | inl z ↦
            rw (z, e) (start_reading-StaysAsked _ n.filename n.mode options n.negotiated_options k)
        | inr z ↦ rw z tt
      ]
  dispatch-StaysAsked s asked (option_negotiation n) (failure c m) a = tt
  dispatch-StaysAsked s asked (option_negotiation n) _ a = tt
  dispatch-StaysAsked s none (reading r) (ack block) (options, e, k) = cc
  dispatch-StaysAsked s (some asked) (reading r) (ack block) a =
      handle_ack-StaysAsked s (some asked) r block a
  dispatch-StaysAsked s asked (reading r) (failure c m) a = tt
  dispatch-StaysAsked s asked (reading r) _ a = tt
  dispatch-StaysAsked s asked complete p a = tt

  timeout_as-StaysAsked :
      (t : TransferState R) (s : State R) (asked : Option Request)
      → IsAsked asked t
      → StaysAsked (first_of asked timed_out) (handle_timeout_as t s)
  unfolding handle_timeout_as
  timeout_as-StaysAsked uninitialized s asked a = tt
  timeout_as-StaysAsked (option_negotiation n) s none (options, e, k) = cc
  timeout_as-StaysAsked (option_negotiation n) s (some asked) a =
      elim (Bool-cases (u8 (n.timeouts + 1) == s.max_timeouts)) [ inl e ↦ rw e tt | inr e ↦ rw e a ]
  timeout_as-StaysAsked (reading r) s none (options, e, k) = cc
  timeout_as-StaysAsked (reading r) s (some asked) a =
      elim (Bool-cases (u8 (r.timeouts + 1) == s.max_timeouts)) [ inl e ↦ rw e tt | inr e ↦ rw e a ]
  timeout_as-StaysAsked complete s asked a = tt

  -- Only a first read request begins a transfer; no later packet changes what it is of.
  pub respond-StaysAsked :
      (s : State R) (asked : Option Request) (e : Event)
      → IsAsked asked s.state
      → StaysAsked (first_of asked e) (respond h s e)
  unfolding respond handle handle_timeout
  respond-StaysAsked s asked (arrived p) a = dispatch-StaysAsked s asked s.state p a
  respond-StaysAsked s asked timed_out a = timeout_as-StaysAsked s.state s asked a
