-- ===== src/Tftp/State.antt =====
-- tftp/state.rs: the state machine of a transfer. The address is only logged, and is left out; the
-- handler is an argument. `acked_block + 1` wraps, as in a build without overflow checks.
pub mod Accepted
pub mod Timeouts
pub mod Opening
pub mod Integrity
pub mod Transfer
use rack_director.Prelude.{
  ℕ, ◌+◌, ◌%◌, Bool, true, false, ◌||◌, Option, none, some, List, [], ◌∷◌, ◌++◌, Bytes, codes,
  Result, ok, err, ◌>>=◌, length, is_empty, leb, ltb, ◌==◌, if◌then◌else◌,
}
use rack_director.Tftp.Reader.{IoError}
use rack_director.Tftp.Options.{TftpOption, t_size, blk_size, unrecognized}
use rack_director.Tftp.Packet.{
  ErrorCode, undefined, file_not_found, illegal_operation, Packet, rrq, wrq, block_data, ack,
  failure, oack,
}

abbrev pub default_max_retries : ℕ
default_max_retries = 4

-- The traits `Handler` and `Reader`, over the type of the open files.
pub record Handler (R : Type 0) : Type 0 where
  pub create_reader : Bytes → ℕ → Result IoError R
  pub filesize : Bytes → Result IoError ℕ
  pub read : R → R × Result IoError Bytes

pub data ControlFlow : Type 0 where
  continue : Packet → ControlFlow
  closed : Option Packet → ControlFlow

pub record Negotiation : Type 0 where
  pub filename : Bytes
  pub mode : Bytes
  pub negotiated_options : List TftpOption
  pub timeouts : ℕ

pub record Reading (R : Type 0) : Type 0 where
  pub filename : Bytes
  pub mode : Bytes
  pub block : ℕ
  pub reader : R
  pub bytes : Bytes
  pub timeouts : ℕ
  pub block_size : ℕ

pub data TransferState (R : Type 0) : Type 0 where
  uninitialized : TransferState R
  option_negotiation : Negotiation → TransferState R
  reading : Reading R → TransferState R
  complete : TransferState R

pub record State (R : Type 0) : Type 0 where
  pub state : TransferState R
  pub max_timeouts : ℕ

unfoldable pub new : {R : Type 0} → State R
new {R} = record { state = uninitialized; max_timeouts = default_max_retries }

pub data HandleError : Type 0 where
  io : IoError → HandleError
  unexpected_ack : ℕ → HandleError

pub record HandleResponse (R : Type 0) : Type 0 where
  pub next_state : Option (TransferState R)
  pub response : ControlFlow

abbrev pub u16 : ℕ → ℕ
u16 n = n % 65536

abbrev pub u8 : ℕ → ℕ
u8 n = n % 256

-- The `?` on an error of the file system.
lift_io : {A : Type 0} → Result IoError A → Result HandleError A
lift_io (ok a) = ok a
lift_io (err e) = err (io e)

module _ {R : Type 0} where
  -- `error` and `close`.
  illegal : Result HandleError (HandleResponse R)
  illegal = ok (record {
    next_state = some complete;
    response = closed (some (failure illegal_operation []));
  })

  close : Result HandleError (HandleResponse R)
  close = ok (record { next_state = some complete; response = closed none })

module _ {R : Type 0} (handler : Handler R) where
  -- The loop over the options, with the options taken so far.
  pub negotiate_from : Bytes → List TftpOption → List TftpOption → Result IoError (List TftpOption)
  negotiate_from filename negotiated [] = ok negotiated
  negotiate_from filename negotiated (t_size _ ∷ options) = handler.filesize filename >>= λ filelen.
      negotiate_from filename (negotiated ++ t_size filelen ∷ []) options
  negotiate_from filename negotiated (blk_size size ∷ options) =
      negotiate_from filename
        (if leb 10000 size then negotiated else negotiated ++ blk_size size ∷ []) options
  negotiate_from filename negotiated (unrecognized _ _ ∷ options) =
      negotiate_from filename negotiated options

  unfoldable pub negotiate_options : Bytes → List TftpOption → Result IoError (List TftpOption)
  unfolding negotiate_from
  negotiate_options filename options = negotiate_from filename [] options

  -- What `handle_read_request` and `handle_option_ack_with_state` share: the first block is read.
  start_reading : Bytes → Bytes → ℕ → Result HandleError (HandleResponse R)
  unfolding lift_io
  start_reading filename mode block_size =
      lift_io (handler.create_reader filename block_size) >>= λ reader.
      let (reader', got) = handler.read reader in
      lift_io got >>= λ bytes. ok (record {
        next_state = some (
            reading (record {
              filename = filename;
              mode = mode;
              block = 1;
              reader = reader';
              bytes = bytes;
              timeouts = 0;
              block_size = block_size;
            }));
        response = continue (block_data 1 bytes);
      })

  -- `handle_read_request` after its call of `negotiate_options`.
  answer_request :
      Bytes → Bytes → Result IoError (List TftpOption) → Result HandleError (HandleResponse R)
  unfolding start_reading
  answer_request filename mode (err _) =
      ok (record {
        next_state = some complete;
        response = closed (some (failure file_not_found []));
      })
  answer_request filename mode (ok []) = start_reading filename mode 512
  answer_request filename mode (ok (o ∷ os)) = ok (record {
    next_state = some (
        option_negotiation
          (record { filename = filename; mode = mode; negotiated_options = o ∷ os; timeouts = 0 }));
    response = continue (oack (o ∷ os));
  })

  handle_read_request : Bytes → Bytes → List TftpOption → Result HandleError (HandleResponse R)
  unfolding negotiate_options answer_request
  handle_read_request filename mode options =
      answer_request filename mode (negotiate_options filename options)

  -- The first negotiated block size, 512 if there is none.
  unfoldable pub negotiated_block_size : List TftpOption → ℕ
  negotiated_block_size [] = 512
  negotiated_block_size (blk_size size ∷ _) = size
  negotiated_block_size (t_size _ ∷ os) = negotiated_block_size os
  negotiated_block_size (unrecognized _ _ ∷ os) = negotiated_block_size os

  handle_option_ack_with_state : Negotiation → Result HandleError (HandleResponse R)
  unfolding start_reading negotiated_block_size
  handle_option_ack_with_state n =
      start_reading n.filename n.mode (negotiated_block_size n.negotiated_options)

  -- The reply of `handle_ack`.
  resend : ℕ → Bytes → HandleResponse R
  resend acked_block bytes = record {
    next_state = none;
    response = continue (block_data (u16 (acked_block + 1)) bytes);
  }

  -- What the read of the next block gives; the fields that were changed before it stay so.
  read_next :
      Reading R → ℕ → R × Result IoError Bytes → Reading R × Result HandleError (HandleResponse R)
  unfolding resend
  read_next r acked_block (reader, ok bytes) = (
    record r { timeouts = 0; block = u16 (r.block + 1); reader = reader; bytes = bytes },
    ok (resend acked_block bytes),
  )
  read_next r acked_block (reader, err e) =
      (record r { timeouts = 0; block = u16 (r.block + 1); reader = reader }, err (io e))

  -- The fields of `Reading` that the code holds by `&mut` come back changed, also with an error.
  handle_ack : Reading R → ℕ → Reading R × Result HandleError (HandleResponse R)
  unfolding close read_next
  handle_ack r acked_block =
      if acked_block == r.block
      then if ltb (length r.bytes) r.block_size
        then (r, close)
        else read_next r acked_block (handler.read r.reader)
      else if acked_block == u16 (r.block + 65535)
      then (r, ok (resend acked_block r.bytes))
      else (r, err (unexpected_ack acked_block))

  -- The `match` of `State::handle`: the state as the branch leaves it, and the branch's result.
  dispatch : TransferState R → Packet → TransferState R × Result HandleError (HandleResponse R)
  unfolding handle_read_request handle_option_ack_with_state handle_ack illegal close
  dispatch uninitialized (rrq filename mode options) =
      (uninitialized, handle_read_request filename mode options)
  dispatch uninitialized _ = (uninitialized, illegal)
  dispatch (option_negotiation n) (ack block) =
      (option_negotiation n, if block == 0 then handle_option_ack_with_state n else illegal)
  dispatch (option_negotiation n) (failure _ _) = (option_negotiation n, close)
  dispatch (option_negotiation n) _ = (option_negotiation n, illegal)
  dispatch (reading r) (ack acked_block) =
      let (r', result) = handle_ack r acked_block in (reading r', result)
  dispatch (reading r) (failure _ _) = (reading r, close)
  dispatch (reading r) _ = (reading r, illegal)
  dispatch complete _ = (complete, illegal)

module _ {R : Type 0} where
  -- The `match` on the result at the end of `State::handle`.
  finish : State R → Result HandleError (HandleResponse R) → State R × ControlFlow
  finish s (ok r) = (elim r.next_state [ none ↦ s | some t ↦ record s { state = t } ], r.response)
  finish s (err _) = (s, closed (some (failure undefined (codes "internal error occured"))))

  pub handle_timeout_as : TransferState R → State R → State R × ControlFlow
  handle_timeout_as uninitialized s = (s, closed none)
  handle_timeout_as (option_negotiation n) s =
      let timeouts = u8 (n.timeouts + 1) in
      (
        record s { state = option_negotiation (record n { timeouts = timeouts }) },
        if timeouts == s.max_timeouts then closed none else continue (oack n.negotiated_options),
      )
  handle_timeout_as (reading r) s =
      let timeouts = u8 (r.timeouts + 1) in
      (
        record s { state = reading (record r { timeouts = timeouts }) },
        if timeouts == s.max_timeouts then closed none else continue (block_data r.block r.bytes),
      )
  handle_timeout_as complete s = (s, closed none)

  unfoldable pub handle_timeout : State R → State R × ControlFlow
  unfolding handle_timeout_as
  handle_timeout s = handle_timeout_as s.state s

module _ {R : Type 0} (handler : Handler R) where
  unfoldable pub handle : State R → Packet → State R × ControlFlow
  unfolding dispatch finish
  handle s packet =
      let (state, result) = dispatch handler s.state packet in
      finish (record s { state = state }) result

-- What the loop of a connection waits for.
pub data Event : Type 0 where
  arrived : Packet → Event
  timed_out : Event

module _ {R : Type 0} (handler : Handler R) where
  unfoldable pub respond : State R → Event → State R × ControlFlow
  respond s (arrived packet) = handle handler s packet
  respond s timed_out = handle_timeout s
