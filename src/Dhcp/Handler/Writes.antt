-- ===== src/Dhcp/Handler/Writes.antt =====
-- dhcp/handler.rs: every packet makes one of the changes of Leases/Changes, or none.
mod Answers
pub mod Given
use rack_director.Prelude.{
  ℕ, ◌^◌, ◌<◌, ◌≤◌, ◌≡◌, Bool, true, false, not, Option, none, some, List, [], ◌∷◌, Bytes, ◌==◌,
  if◌then◌else◌, Result, ok, err, refl, sym, ap, subst, arith, ==_iff, ok_or, >>=-eq-ok,
  ok_or-eq-ok, ◌>>=◌,
}
use rack_director.Dhcp.Ipv4.{parse_ipv4}
use rack_director.Dhcp.Ipv4.Bounds.{parse_ipv4-lt}
use rack_director.Dhcp.Store.{
  Tables, DhcpNetwork, DhcpPool, Lease, StaticReservation, get_static_reservation, get_lease_by_mac,
  activate_lease, release_lease, create_or_update_lease_with_network, get_network_by_relay,
  get_l2_networks, offered, active, released,
}
use rack_director.Dhcp.Allocator.{AllocationError, parse_ip_range, allocate_for_mac_in_network}
use rack_director.Dhcp.Allocator.Free.{InPools, in_first, in_later}
use rack_director.Dhcp.Allocator.Sources.{
  IsSource, reserved, leased, pooled, allocate_for_mac-IsSource,
  allocate_for_device-allocate_for_mac,
}
use rack_director.Dhcp.Leases.{Change, same, stored, marked}
use rack_director.Dhcp.Message.{
  Message, DhcpOption, message_type, discover, request, release, decline,
}
use rack_director.Dhcp.Request.{RequestContext, from_message, extract_server_identifier, format_mac}
use rack_director.Dhcp.DeviceResolution.{DeviceContext}
use rack_director.Dhcp.MessageBuilder.{DhcpError, build_ack, no_interfaces}
use rack_director.Dhcp.Interface.{find_matching_l2_network, find_l2_network_for_ip}
use rack_director.Dhcp.Handler.{
  DhcpHandler, Db, allocate, DhcpReply, Answer, offer_address, handle_discover, notify,
  confirm_reservation, confirm_lease, from_lease, from_reservation, from_request, handle_request,
  handle_release, respond, send, process_and_reply, requested, for_other_server, for_relay, for_l2,
  with_network, if_decoded, located, nak_for, some_message, handle_packet, handle_l2_unicast_packet,
}
use Answers.{Writes, respond-Writes}

module _ {D Options : Type 0} (h : DhcpHandler D Options) where
  process_and_reply-Writes :
      (msg : Message Options) (network : DhcpNetwork) (id : ℕ) (reply : Bytes → DhcpReply) (now : ℕ)
      (db : Db D)
      → Writes h now db (process_and_reply h msg network id reply now db).0
  unfolding process_and_reply
  process_and_reply-Writes msg network id reply now db =
      respond-Writes h (h.dhcproto.get 53 msg.opts) msg network id now db

  for_l2-Writes :
      (found : Result DhcpError (Option (DhcpNetwork × ℕ))) (msg : Message Options) (peer : ℕ × ℕ)
      (now : ℕ) (db : Db D)
      → Writes h now db (for_l2 h found msg peer now db).0
  for_l2-Writes (err e) msg peer now db = same
  for_l2-Writes (ok none) msg peer now db = same
  for_l2-Writes (ok (some (network, local_ip))) msg peer now db =
      process_and_reply-Writes msg network local_ip _ now db

  for_relay-Writes :
      (found : Option DhcpNetwork) (msg : Message Options) (now : ℕ) (db : Db D)
      → Writes h now db (for_relay h found msg now db).0
  for_relay-Writes none msg now db = same
  for_relay-Writes (some network) msg now db =
      process_and_reply-Writes msg network h.server_identifier _ now db

  with_network-Writes :
      (msg : Message Options) (if_index : ℕ) (peer : ℕ × ℕ) (now : ℕ) (db : Db D)
      → Writes h now db (with_network h msg if_index peer now db).0
  with_network-Writes msg if_index peer now db = go (msg.giaddr == 0)
    where
      found : Result DhcpError (Option (DhcpNetwork × ℕ))
      found =
          ok_or (h.interface_addresses if_index) no_interfaces
          >>= (λ ips. find_matching_l2_network ips (get_l2_networks db.tables))

      go :
          (b : Bool)
          → Writes h now db
              (if not b
                then for_relay h (get_network_by_relay db.tables msg.giaddr) msg now db
                else for_l2 h found msg peer now db).0
      go true = for_l2-Writes found msg peer now db
      go false = for_relay-Writes (get_network_by_relay db.tables msg.giaddr) msg now db

  -- A broadcast or relayed packet stores one lease whose address comes from the reservation or the
  -- running lease of the sender or is free in the pools, or gives leases a state, or writes nothing.
  pub handle_packet-Change :
      (text : Bytes) (if_index : ℕ) (peer : ℕ × ℕ) (now : ℕ) (db : Db D)
      → Change now db.tables (handle_packet h text if_index peer now db).0.tables
  unfolding handle_packet
  handle_packet-Change text if_index peer now db = go (h.dhcproto.decode text)
    where
      go :
          (m : Option (Message Options))
          → Writes h now db (if_decoded h m (λ msg. with_network h msg if_index peer now) db).0
      go none = same
      go (some msg) = with_network-Writes msg if_index peer now db

  pub handle_l2_unicast_packet-Change :
      (text : Bytes) (peer : ℕ × ℕ) (local_ip now : ℕ) (db : Db D)
      → Change now db.tables (handle_l2_unicast_packet h text peer local_ip now db).0.tables
  unfolding handle_l2_unicast_packet
  handle_l2_unicast_packet-Change text peer local_ip now db = go (h.dhcproto.decode text)
    where
      found : Result DhcpError (Option (DhcpNetwork × ℕ))
      found = located h (find_l2_network_for_ip local_ip (get_l2_networks db.tables)) local_ip

      go :
          (m : Option (Message Options))
          → Writes h now db (if_decoded h m (λ msg. for_l2 h found msg peer now) db).0
      go none = same
      go (some msg) = for_l2-Writes found msg peer now db
