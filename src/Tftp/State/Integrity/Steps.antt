-- ===== src/Tftp/State/Integrity/Steps.antt =====
-- tftp/state.rs: each branch of `handle` and of `handle_timeout` sends a block of the file.
use rack_director.Prelude.{
  ℕ, ◌+◌, ◌≡◌, refl, sym, ap, subst, inl, inr, Bool-cases, List, [], ◌∷◌, Bytes, Result,
  Result-cases, ok, err, ◌>>=◌, length, ltb, ◌==◌, arith,
}
use rack_director.Tftp.Reader.{IoError}
use rack_director.Tftp.Options.{TftpOption}
use rack_director.Tftp.Packet.{Packet, rrq, block_data, ack, failure}
use rack_director.Tftp.State.{
  Handler, Reading, TransferState, uninitialized, option_negotiation, reading, complete, State, u16,
  u8, lift_io, start_reading, negotiate_options, answer_request, read_next, negotiated_block_size,
  handle_ack, dispatch, finish, handle, handle_timeout, handle_timeout_as,
}
use rack_director.Tftp.State.Integrity.Files.{
  ReadsFiles, IsAt, IsSending, IsGood, first-IsAt, next-IsAt,
}

module _ {R : Type 0} {h : Handler R} (files : ReadsFiles h) where
  start_reading-IsGood :
      (s : State R) (filename mode : Bytes) (size' : ℕ)
      → IsGood files (finish s (start_reading h filename mode size'))
  unfolding start_reading finish lift_io
  start_reading-IsGood s filename mode size' =
      elim (Result-cases (h.create_reader filename size')) [
        | inr (e, o) ↦ rw (o, lift_io) tt
        | inl (r, o) ↦ elim (Result-cases (h.read r).1) [
          | inr (e, g) ↦ rw (o, lift_io, ◌>>=◌, g) tt
          | inl (bytes, g) ↦
              rw (o, lift_io, ◌>>=◌, g)
                (refl, (0, first-IsAt files filename mode bytes size' r o g))
        ]
      ]

  answer_request-IsGood :
      (s : State R) (filename mode : Bytes) (negotiated : Result IoError (List TftpOption))
      → IsGood files (finish s (answer_request h filename mode negotiated))
  unfolding answer_request finish
  answer_request-IsGood s filename mode (err e) = tt
  answer_request-IsGood s filename mode (ok []) = start_reading-IsGood s filename mode 512
  answer_request-IsGood s filename mode (ok (o ∷ os)) = refl

  read_next-IsGood :
      (s : State R) (r : Reading R) (n : ℕ)
      → IsAt files r n
      → (reader : R) (got : Result IoError Bytes) → h.read r.reader ≡ (reader, got)
      → let (r', result) = read_next h r r.block (reader, got) in
        IsGood files (finish (record s { state = reading r' }) result)
  unfolding read_next finish
  read_next-IsGood s r n a reader (err e) g = tt
  read_next-IsGood s r n a reader (ok bytes) g = (
    refl,
    (
      n + 1,
      subst
          (λ x.
            IsAt files
              (record r { timeouts = 0; block = u16 (r.block + 1); reader = x; bytes = bytes })
              (n + 1))
          (ap (λ x. x.0) g) (next-IsAt files r n bytes a (ap (λ x. x.1) g)),
    ),
  )

  resent_block :
      (r : Reading R) (n acked_block : ℕ)
      → IsAt files r n
      → acked_block ≡ u16 (r.block + 65535)
      → u16 (acked_block + 1) ≡ r.block
  resent_block r n acked_block a e = rw e (omega (arith, a.number))

  handle_ack-IsGood :
      (s : State R) (r : Reading R) (n acked_block : ℕ)
      → IsAt files r n
      → IsGood files (
          finish
            (record s { state = reading (handle_ack h r acked_block).0 })
            (handle_ack h r acked_block).1)
  unfolding handle_ack finish
  handle_ack-IsGood s r n acked_block a = elim (Bool-cases (acked_block == r.block)) [
    | inl e ↦ elim (Bool-cases (ltb (length r.bytes) r.block_size)) [
      | inl t ↦ rw (e, t) tt
      | inr t ↦
          let k : acked_block ≡ r.block = ground arith in
          rw (e, t)
            (subst
              (λ b.
                let (r', result) = read_next h r b (h.read r.reader) in
                IsGood files (finish (record s { state = reading r' }) result))
              (sym k) (read_next-IsGood s r n a (h.read r.reader).0 (h.read r.reader).1 refl))
    ]
    | inr e ↦ elim (Bool-cases (acked_block == u16 (r.block + 65535))) [
      | inl p ↦
          rw (e, p)
            (ap (λ b. block_data b r.bytes) (resent_block r n acked_block a (ground arith)), (n, a))
      | inr p ↦ rw (e, p) tt
    ]
  ]

  dispatch-IsGood :
      (s : State R) (t : TransferState R) (p : Packet)
      → IsSending files t
      → IsGood files (finish (record s { state = (dispatch h t p).0 }) (dispatch h t p).1)
  unfolding dispatch finish
  dispatch-IsGood s uninitialized (rrq filename mode os) i =
      answer_request-IsGood _ filename mode (negotiate_options h filename os)
  dispatch-IsGood s uninitialized _ i = tt
  dispatch-IsGood s (option_negotiation n) (ack block) i = elim (Bool-cases (block == 0)) [
    | inl e ↦
        rw e
          (start_reading-IsGood _ n.filename n.mode (negotiated_block_size h n.negotiated_options))
    | inr e ↦ rw e tt
  ]
  dispatch-IsGood s (option_negotiation n) (failure c m) i = tt
  dispatch-IsGood s (option_negotiation n) _ i = tt
  dispatch-IsGood s (reading r) (ack block) (n, a) = handle_ack-IsGood s r n block a
  dispatch-IsGood s (reading r) (failure c m) i = tt
  dispatch-IsGood s (reading r) _ i = tt
  dispatch-IsGood s complete p i = tt

  -- Every packet that `handle` answers with, without closing, is the block or the options that the
  -- state is at.
  pub handle-IsGood :
      (s : State R) (p : Packet) → IsSending files s.state → IsGood files (handle h s p)
  unfolding handle
  handle-IsGood s p i = dispatch-IsGood s s.state p i

  -- `IsAt` does not read the count of timeouts.
  recount-IsAt :
      (r : Reading R) (n t : ℕ) → IsAt files r n → IsAt files (record r { timeouts = t }) n
  recount-IsAt r n t a = record {
    number = a.number;
    current = a.current;
    behind = a.behind;
    opened_with = a.opened_with;
  }

  timeout_as-IsGood :
      (t : TransferState R) (s : State R) → IsSending files t → IsGood files (handle_timeout_as t s)
  unfolding handle_timeout_as
  timeout_as-IsGood uninitialized s i = tt
  timeout_as-IsGood (option_negotiation n) s i =
      elim (Bool-cases (u8 (n.timeouts + 1) == s.max_timeouts)) [
        | inl e ↦ rw e tt
        | inr e ↦ rw e refl
      ]
  timeout_as-IsGood (reading r) s (n, a) =
      elim (Bool-cases (u8 (r.timeouts + 1) == s.max_timeouts)) [
        | inl e ↦ rw e tt
        | inr e ↦ rw e (refl, (n, recount-IsAt r n _ a))
      ]
  timeout_as-IsGood complete s i = tt

  -- What is sent again after a timeout is that too.
  pub timeout-IsGood : (s : State R) → IsSending files s.state → IsGood files (handle_timeout s)
  unfolding handle_timeout
  timeout-IsGood s i = timeout_as-IsGood s.state s i
