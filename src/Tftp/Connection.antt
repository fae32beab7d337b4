-- ===== src/Tftp/Connection.antt =====
-- tftp/connection.rs: one connection, from its first packet to its end, over what its socket gives:
-- a datagram, an error, or nothing in time. A `Delivery` also says whether the send that answers it
-- succeeds. And the loop of tftp/mod.rs that opens connections.
pub mod Laws
use rack_director.Prelude.{
  ℕ, zero, suc, ◌+◌, Bool, true, false, Option, none, some, List, [], ◌∷◌, ◌++◌, Bytes, Result, ok,
  err, length, take, if◌then◌else◌,
}
use rack_director.Tftp.Unicode.{Unicode}
use rack_director.Tftp.Packet.{Packet, ParseError, parse, to_bytes}
use rack_director.Tftp.State.{
  Handler, ControlFlow, continue, closed, State, new, handle, handle_timeout,
}

pub data Received : Type 0 where
  datagram : Bytes → Received
  broken : Received
  timeout : Received

pub record Delivery : Type 0 where
  pub received : Received
  pub can_send : Bool

-- `connection_closed` is the error by which a method says that the connection is over; `accept`
-- returns `Ok` on it. `waiting` is a connection that is still open when the deliveries end.
pub data Status : Type 0 where
  waiting connection_closed send_failed receive_failed : Status
  parse_failed : ParseError → Status

-- `[0; 512]`: a longer datagram is cut.
abbrev pub buffer_size : ℕ
buffer_size = 512

-- What is sent, and how the connection stands afterwards.
transmit : Bool → ControlFlow → List Bytes × Status
unfolding to_bytes
transmit can_send (continue packet) =
    if can_send then (to_bytes packet ∷ [], waiting) else ([], send_failed)
transmit can_send (closed (some packet)) =
    if can_send then (to_bytes packet ∷ [], connection_closed) else ([], send_failed)
transmit can_send (closed none) = ([], connection_closed)

-- The sends so far, and what follows while the connection is open.
proceed : List Bytes × Status → List Bytes × Status → List Bytes × Status
proceed (sent, waiting) (more, status) = (sent ++ more, status)
proceed (sent, status) _ = (sent, status)

module _ {R : Type 0} (handler : Handler R) (u : Unicode) where
  -- A datagram that the socket gave, parsed. The fuel is more than the rounds of any loop that ends,
  -- so `parse_failed out_of_fuel` stands for a connection that never comes back from the parser.
  on_packet : State R → Bool → Result ParseError Packet → State R × (List Bytes × Status)
  unfolding transmit
  on_packet s can_send (err e) = (s, ([], parse_failed e))
  on_packet s can_send (ok packet) =
      let (s', flow) = handle handler s packet in (s', transmit can_send flow)

  on_received : State R → Bool → Received → State R × (List Bytes × Status)
  unfolding transmit on_packet
  on_received s can_send (datagram bytes) =
      on_packet s can_send (parse (suc buffer_size) u (take buffer_size bytes))
  on_received s can_send broken = (s, ([], receive_failed))
  on_received s can_send timeout = let (s', flow) = handle_timeout s in (s', transmit can_send flow)

  -- The loop of `accept`.
  serve : State R → List Delivery → List Bytes × Status
  unfolding on_received proceed
  serve s [] = ([], waiting)
  serve s (d ∷ ds) =
      let (s', step) = on_received s d.can_send d.received in proceed step (serve s' ds)

  -- `Connection::accept`, once its socket is bound.
  unfoldable pub accept : Packet → Bool → List Delivery → List Bytes × Status
  unfolding transmit serve proceed
  accept packet can_send ds =
      let (s, flow) = handle handler new packet in proceed (transmit can_send flow) (serve s ds)

-- The round of that loop: a connection is opened, or the error is returned.
open_connection :
    Result ParseError Packet → List Packet × Option ParseError → List Packet × Option ParseError
open_connection (err e) rest = ([], some e)
open_connection (ok packet) (packets, stop) = (packet ∷ packets, stop)

module _ (u : Unicode) where
  -- The loop of `serve` in tftp/mod.rs over the datagrams that come in: the packets for which it
  -- opens a connection, and the error with which it returns, if one does not parse.
  unfoldable pub listen : List Bytes → List Packet × Option ParseError
  unfolding open_connection
  listen [] = ([], none)
  listen (d ∷ ds) = open_connection (parse (suc buffer_size) u (take buffer_size d)) (listen ds)
