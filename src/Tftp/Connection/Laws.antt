-- ===== src/Tftp/Connection/Laws.antt =====
-- tftp/connection.rs and the loop of tftp/mod.rs: silent clients, and datagrams that do not parse.
use rack_director.Prelude.{
  ℕ, zero, suc, ◌≡◌, refl, ap, subst, ◌∙◌, true, none, some, List, [], ◌∷◌, ◌++◌, Bytes, err, take,
  arith,
}
use rack_director.Tftp.Unicode.{Unicode}
use rack_director.Tftp.Packet.{Packet, ParseError, parse, to_bytes}
use rack_director.Tftp.State.{
  Handler, ControlFlow, continue, closed, State, new, handle, handle_timeout,
}
use rack_director.Tftp.State.Timeouts.{
  silence, silence_zero, silence_more, answers, replicate, silence-gives_up,
}
use rack_director.Tftp.State.Opening.{IsFresh, handle-IsFresh}
use rack_director.Tftp.Connection.{
  Delivery, timeout, Status, waiting, connection_closed, buffer_size, transmit, proceed, serve,
  accept, listen,
}

-- Nothing comes in time, and a send would succeed.
abbrev pub quiet : Delivery
quiet = record { received = timeout; can_send = true }

module _ {R : Type 0} (h : Handler R) (u : Unicode) where
  deliver : List ControlFlow → List Bytes × Status
  deliver [] = ([], waiting)
  deliver (flow ∷ flows) = proceed (transmit true flow) (deliver flows)

  deliver-answers :
      (n : ℕ) (next : State R × ControlFlow)
      → serve h u next.0 (replicate n quiet) ≡ deliver (silence n next.0)
      → proceed (transmit true next.1) (serve h u next.0 (replicate n quiet))
        ≡ deliver (answers (silence n) next)
  unfolding deliver answers proceed transmit
  deliver-answers n (s, continue p) e = rw e
  deliver-answers n (s, closed none) e = refl
  deliver-answers n (s, closed (some p)) e = refl

  serve-silence : (n : ℕ) (s : State R) → serve h u s (replicate n quiet) ≡ deliver (silence n s)
  unfolding serve deliver
  serve-silence zero s = rw silence_zero
  serve-silence (suc n) s =
      rw silence_more (deliver-answers n (handle_timeout s) (serve-silence n (handle_timeout s).0))

  four_sends :
      (s : State R) (q : Packet)
      → proceed
          (transmit true (continue q))
          (deliver (replicate 3 (continue q) ++ closed none ∷ []))
        ≡ (to_bytes q ∷ to_bytes q ∷ to_bytes q ∷ to_bytes q ∷ [], connection_closed)
  unfolding deliver proceed transmit
  four_sends s q = refl

  fresh_silence :
      (s : State R) (q : Packet)
      → IsFresh (s, continue q)
      → proceed (transmit true (continue q)) (serve h u s (replicate 4 quiet))
        ≡ (to_bytes q ∷ to_bytes q ∷ to_bytes q ∷ to_bytes q ∷ [], connection_closed)
  fresh_silence s q (l, t, m) =
      ap (proceed (transmit true (continue q)))
        (serve-silence 4 s ∙ ap deliver (silence-gives_up 3 s q l (omega arith) (omega arith)))
      ∙ four_sends s q

  -- A client that falls silent after its request is sent the answer four times in all, and then the
  -- connection is closed.
  pub accept-silence :
      (p q : Packet) (s : State R)
      → handle h new p ≡ (s, continue q)
      → accept h u p true (replicate 4 quiet)
        ≡ (to_bytes q ∷ to_bytes q ∷ to_bytes q ∷ to_bytes q ∷ [], connection_closed)
  unfolding accept
  accept-silence p q s e = rw e (fresh_silence s q (subst IsFresh e (handle-IsFresh h p)))

module _ (u : Unicode) where
  -- A datagram that does not parse ends the server: nothing that comes after it is answered.
  pub listen_ends :
      (before after : List Bytes) (bad : Bytes) (e : ParseError)
      → parse (suc buffer_size) u (take buffer_size bad) ≡ err e
      → listen u (before ++ bad ∷ after) ≡ listen u (before ++ bad ∷ [])
  unfolding listen
  listen_ends [] after bad e h = rw h
  listen_ends (d ∷ before) after bad e h = rw (listen_ends before after bad e h)
