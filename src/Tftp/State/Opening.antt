-- ===== src/Tftp/State/Opening.antt =====
-- tftp/state.rs: the state after the first packet of a connection.
use rack_director.Prelude.{
  ℕ, ◌≡◌, refl, Result, Result-cases, inl, inr, ok, err, ◌>>=◌, Bytes, List, [], ◌∷◌, some,
}
use rack_director.Tftp.Reader.{IoError}
use rack_director.Tftp.Options.{TftpOption}
use rack_director.Tftp.Packet.{Packet, rrq}
use rack_director.Tftp.State.{
  Handler, ControlFlow, continue, closed, State, new, default_max_retries, lift_io, start_reading,
  answer_request, negotiate_options, handle_read_request, dispatch, finish, handle,
}
use rack_director.Tftp.State.Timeouts.{last_sent, timeouts_of}

-- If the connection stays open, the state remembers the packet that it sent, and has no timeout yet.
abbrev pub IsFresh : {R : Type 0} → State R × ControlFlow → Type 0
IsFresh (s, continue q) =
    (last_sent s.state ≡ some q)
    × (timeouts_of s.state ≡ 0)
    × (s.max_timeouts ≡ default_max_retries)
IsFresh (s, closed _) = Unit

module _ {R : Type 0} (h : Handler R) where
  start_reading-IsFresh :
      (filename mode : Bytes) (size : ℕ) → IsFresh (finish new (start_reading h filename mode size))
  unfolding start_reading finish lift_io new
  start_reading-IsFresh filename mode size = elim (Result-cases (h.create_reader filename size)) [
    | inr (e, o) ↦ rw (o, lift_io) tt
    | inl (r, o) ↦ elim (Result-cases (h.read r).1) [
      | inr (e, g) ↦ rw (o, lift_io, ◌>>=◌, g) tt
      | inl (bytes, g) ↦ rw (o, lift_io, ◌>>=◌, g) (refl, refl, refl)
    ]
  ]

  answer_request-IsFresh :
      (filename mode : Bytes) (negotiated : Result IoError (List TftpOption))
      → IsFresh (finish new (answer_request h filename mode negotiated))
  unfolding answer_request finish new
  answer_request-IsFresh filename mode (err e) = tt
  answer_request-IsFresh filename mode (ok []) = start_reading-IsFresh filename mode 512
  answer_request-IsFresh filename mode (ok (o ∷ os)) = (refl, refl, refl)

  pub handle-IsFresh : (p : Packet) → IsFresh (handle h new p)
  unfolding handle dispatch finish handle_read_request new
  handle-IsFresh (rrq filename mode os) =
      answer_request-IsFresh filename mode (negotiate_options h filename os)
  handle-IsFresh _ = tt
