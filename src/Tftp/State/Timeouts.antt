-- ===== src/Tftp/State/Timeouts.antt =====
-- tftp/state.rs: retransmission and giving up.
use rack_director.Prelude.{
  ℕ, zero, suc, ◌+◌, ◌<◌, ◌≡◌, refl, ap, true, false, Option, none, some, List, [], ◌∷◌, ◌++◌, ◌==◌,
  if◌then◌else◌, arith,
}
use rack_director.Tftp.Packet.{Packet, block_data, oack}
use rack_director.Tftp.State.{
  ControlFlow, continue, closed, TransferState, uninitialized, option_negotiation, reading,
  complete, State, u8, handle_timeout_as, handle_timeout,
}

module _ {R : Type 0} where
  unfoldable pub answers : (State R → List ControlFlow) → State R × ControlFlow → List ControlFlow
  answers more (s, continue p) = continue p ∷ more s
  answers more (s, closed p) = closed p ∷ []

  -- What a peer that has gone silent is sent: the answers to `n` timeouts, up to the close.
  unfoldable pub silence : ℕ → State R → List ControlFlow
  unfolding answers
  silence zero s = []
  silence (suc n) s = answers (silence n) (handle_timeout s)

  pub silence_zero : (s : State R) → silence 0 s ≡ []
  unfolding silence
  silence_zero s = refl

  pub silence_more :
      (n : ℕ) (s : State R) → silence (suc n) s ≡ answers (silence n) (handle_timeout s)
  unfolding silence
  silence_more n s = refl

abbrev pub replicate {ℓ} : {A : Type ℓ} → ℕ → A → List A
replicate zero a = []
replicate (suc n) a = a ∷ replicate n a

module _ {R : Type 0} where
  -- The packet that a state sends again, and how often it has done so.
  abbrev pub last_sent : TransferState R → Option Packet
  last_sent (option_negotiation n) = some (oack n.negotiated_options)
  last_sent (reading r) = some (block_data r.block r.bytes)
  last_sent _ = none

  abbrev pub timeouts_of : TransferState R → ℕ
  timeouts_of (option_negotiation n) = n.timeouts
  timeouts_of (reading r) = r.timeouts
  timeouts_of _ = 0

  recount : TransferState R → ℕ → TransferState R
  recount (option_negotiation n) k = option_negotiation (record n { timeouts = k })
  recount (reading r) k = reading (record r { timeouts = k })
  recount t k = t

  recount_lem :
      (t : TransferState R) (k : ℕ) (p : Packet)
      → last_sent t ≡ some p
      → (last_sent (recount t k) ≡ some p) × (timeouts_of (recount t k) ≡ k)
  unfolding recount
  recount_lem (option_negotiation n) k p e = (e, refl)
  recount_lem (reading r) k p e = (e, refl)
  recount_lem uninitialized k p e = cc
  recount_lem complete k p e = cc

  one_timeout_as :
      (t : TransferState R) (s : State R) (p : Packet)
      → last_sent t ≡ some p
      → handle_timeout_as t s ≡ (
        record s { state = recount t (u8 (timeouts_of t + 1)) },
        if u8 (timeouts_of t + 1) == s.max_timeouts then closed none else continue p,
      )
  unfolding handle_timeout_as recount
  one_timeout_as (option_negotiation n) s p e = let q : oack n.negotiated_options ≡ p = cc in rw q
  one_timeout_as (reading r) s p e = let q : block_data r.block r.bytes ≡ p = cc in rw q
  one_timeout_as uninitialized s p e = cc
  one_timeout_as complete s p e = cc

  at_limit :
      (s : State R)
      → timeouts_of s.state + 1 ≡ s.max_timeouts
      → s.max_timeouts < 256
      → (u8 (timeouts_of s.state + 1) == s.max_timeouts) ≡ true
  at_limit s t m = ground arith

  below_limit :
      (n : ℕ) (s : State R)
      → timeouts_of s.state + suc (suc n) ≡ s.max_timeouts
      → s.max_timeouts < 256
      → (u8 (timeouts_of s.state + 1) == s.max_timeouts) ≡ false
  below_limit n s t m = ground arith

  -- One timeout: the count goes up, and the packet is sent again unless the limit is met.
  one_timeout :
      (s : State R) (p : Packet)
      → last_sent s.state ≡ some p
      → handle_timeout s ≡ (
        record s { state = recount s.state (u8 (timeouts_of s.state + 1)) },
        if u8 (timeouts_of s.state + 1) == s.max_timeouts then closed none else continue p,
      )
  unfolding handle_timeout
  one_timeout s p e = one_timeout_as s.state s p e

  -- A peer that stays silent while it is being answered is sent the same packet n times more, where
  -- n + 1 timeouts are left until `max_timeouts`, a u8; then the connection is closed without a word.
  pub silence-gives_up :
      (n : ℕ) (s : State R) (p : Packet)
      → last_sent s.state ≡ some p
      → timeouts_of s.state + suc n ≡ s.max_timeouts
      → s.max_timeouts < 256
      → silence (suc n) s ≡ replicate n (continue p) ++ closed none ∷ []
  unfolding silence
  silence-gives_up zero s p l t m = rw (one_timeout s p l, at_limit s t m)
  silence-gives_up (suc n) s p l t m =
      let (l', t') = recount_lem s.state (u8 (timeouts_of s.state + 1)) p l in
      rw (one_timeout s p l, below_limit n s t m)
        (ap (◌∷◌ (continue p)) (silence-gives_up n _ p l' (omega (arith, t')) m))
