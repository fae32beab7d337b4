-- ===== src/Dhcp/Handler.antt =====
-- dhcp/handler.rs: `DhcpHandler`. A handler takes the database and gives it back with the answer,
-- since what was written before an error stays written. The clock is read once for a packet.
pub mod Writes
pub mod Replies
pub mod Confirm
pub mod Dora
pub mod Runs
pub mod Renewals
use rack_director.Prelude.{
  ℕ, Bool, true, false, not, Option, none, some, List, [], ◌∷◌, Bytes, ◌==◌, if◌then◌else◌, Result,
  ok, err, ◌>>=◌, ok_or,
}
use rack_director.Dhcp.Ipv4.{parse_ipv4, format_ipv4}
use rack_director.Dhcp.Store.{
  Tables, DhcpNetwork, Lease, StaticReservation, offered, active,
  create_or_update_lease_with_network, get_lease_by_mac, get_static_reservation, activate_lease,
  release_lease, get_network_by_relay, get_l2_networks,
}
use rack_director.Dhcp.Allocator.{
  AllocationError, allocate_for_mac_in_network, allocate_for_device_in_network,
}
use rack_director.Dhcp.Message.{
  Message, MessageType, Dhcproto, DhcpOption, discover, request, release, decline, message_type,
}
use rack_director.Dhcp.Request.{RequestContext, from_message, extract_server_identifier, format_mac}
use rack_director.Dhcp.DeviceResolution.{DeviceContext, DeviceRow, resolve, set_ip_address}
use rack_director.Dhcp.BootConfig.{BootConfigProvider}
use rack_director.Dhcp.MessageBuilder.{
  DhcpError, allocation, not_an_address, not_encoded, no_interfaces, build_offer, build_ack,
  build_nak,
}
use rack_director.Dhcp.Interface.{find_matching_l2_network, find_l2_network_for_ip}

pub data DhcpReply : Type 0 where
  l2 : Bytes → ℕ → ℕ × ℕ → DhcpReply
  relay : Bytes → ℕ × ℕ → DhcpReply

-- The trait of device_resolution.rs, over the state of the devices.
pub record DeviceResolver (D : Type 0) : Type 0 where
  pub resolve : D → Bytes → Option ℕ → DeviceContext
  pub on_lease_activated : D → ℕ → Bytes → Bytes → D

abbrev pub director_device_resolver : DeviceResolver (List DeviceRow)
director_device_resolver = record { resolve = resolve; on_lease_activated = set_ip_address }

pub record DhcpHandler (D Options : Type 0) : Type 0 where
  pub device_resolver : DeviceResolver D
  pub boot_config : BootConfigProvider
  pub server_identifier : ℕ
  pub dhcproto : Dhcproto Options
  pub interface_addresses : ℕ → Option (List ℕ)

pub record Db (D : Type 0) : Type 0 where
  pub tables : Tables
  pub devices : D

-- The requested address, or the address that the client has.
abbrev pub requested : RequestContext → Option ℕ
requested r = elim r.requested_ip [
  | some ip ↦ some ip
  | none ↦ if r.ciaddr == 0 then none else some r.ciaddr
]

abbrev pub for_other_server : Option ℕ → ℕ → Bool
for_other_server none id = false
for_other_server (some server_id) id = not (server_id == id)

abbrev pub allocate : Option ℕ → Tables → Bytes → ℕ → ℕ → Result AllocationError ℕ
allocate (some uuid) t mac network_id now = allocate_for_device_in_network t mac uuid network_id now
allocate none t mac network_id now = allocate_for_mac_in_network t mac network_id now

module _ {D Options : Type 0} (h : DhcpHandler D Options) where
  abbrev pub Answer : Type 0
  Answer = Db D × Result DhcpError (Option (Message Options))

  abbrev pub some_message :
      Result DhcpError (Message Options) → Result DhcpError (Option (Message Options))
  some_message m = m >>= (λ reply. ok (some reply))

  abbrev pub nak_for : Message Options → ℕ → Result DhcpError (Option (Message Options))
  nak_for msg id = ok (some (build_nak h.dhcproto msg id))

  -- The lease is stored as offered before the offer is built.
  unfoldable pub offer_address :
      Message Options
      → DhcpNetwork
      → ℕ
      → ℕ
      → RequestContext
      → DeviceContext
      → Db D
      → Result AllocationError ℕ
      → Answer
  offer_address msg network id now r dev db (err e) = (db, err (allocation e))
  offer_address msg network id now r dev db (ok ip) = (
    record db {
      tables =
          create_or_update_lease_with_network r.mac ip dev.device_uuid offered
            network.lease_duration network.id now db.tables;
    },
    some_message (build_offer h.dhcproto h.boot_config msg ip network r id),
  )

  unfoldable pub handle_discover : Message Options → DhcpNetwork → ℕ → ℕ → Db D → Answer
  unfolding offer_address
  handle_discover msg network id now db =
      let r = from_message h.dhcproto msg in
      let dev = h.device_resolver.resolve db.devices r.mac r.guid in
      if dev.is_disabled
      then (db, ok none)
      else offer_address msg network id now r dev db
          (allocate dev.device_uuid db.tables r.mac network.id now)

  abbrev pub notify : Option ℕ → ℕ → Bytes → Db D → Db D
  notify none ip mac db = db
  notify (some uuid) ip mac db = record db {
    devices = h.device_resolver.on_lease_activated db.devices uuid (format_ipv4 ip) mac;
  }

  -- The reservation's text is parsed; a request for another address is refused.
  unfoldable pub confirm_reservation :
      Message Options
      → DhcpNetwork
      → ℕ
      → ℕ
      → RequestContext
      → DeviceContext
      → Db D
      → ℕ
      → Option ℕ
      → Answer
  confirm_reservation msg network id now r dev db requested_ip none = (db, err not_an_address)
  confirm_reservation msg network id now r dev db requested_ip (some reserved_ip) =
      if not (requested_ip == reserved_ip) then (db, nak_for msg id) else (
        notify dev.device_uuid reserved_ip r.mac (record db {
          tables =
              create_or_update_lease_with_network r.mac reserved_ip dev.device_uuid active
                network.lease_duration network.id now db.tables;
        }),
        some_message (build_ack h.dhcproto h.boot_config msg reserved_ip network r id),
      )

  unfoldable pub confirm_lease :
      Message Options
      → DhcpNetwork
      → ℕ
      → RequestContext
      → DeviceContext
      → Db D
      → ℕ
      → Option ℕ
      → Answer
  confirm_lease msg network id r dev db requested_ip none = (db, err not_an_address)
  confirm_lease msg network id r dev db requested_ip (some lease_ip) =
      if not (lease_ip == requested_ip) then (db, nak_for msg id) else (
        notify dev.device_uuid lease_ip r.mac
            (record db { tables = activate_lease r.mac db.tables }),
        some_message (build_ack h.dhcproto h.boot_config msg lease_ip network r id),
      )

  abbrev pub from_lease :
      Message Options
      → DhcpNetwork
      → ℕ
      → RequestContext
      → DeviceContext
      → Db D
      → ℕ
      → Option Lease
      → Answer
  from_lease msg network id r dev db requested_ip none = (db, nak_for msg id)
  from_lease msg network id r dev db requested_ip (some l) =
      confirm_lease msg network id r dev db requested_ip (parse_ipv4 l.ip_address)

  abbrev pub from_reservation :
      Message Options
      → DhcpNetwork
      → ℕ
      → ℕ
      → RequestContext
      → DeviceContext
      → Db D
      → ℕ
      → Option StaticReservation
      → Answer
  from_reservation msg network id now r dev db requested_ip none =
      from_lease msg network id r dev db requested_ip (get_lease_by_mac db.tables r.mac)
  from_reservation msg network id now r dev db requested_ip (some s) =
      confirm_reservation msg network id now r dev db requested_ip (parse_ipv4 s.ip_address)

  abbrev pub from_request :
      Message Options
      → DhcpNetwork
      → ℕ
      → ℕ
      → RequestContext
      → DeviceContext
      → Db D
      → Option ℕ
      → Answer
  from_request msg network id now r dev db none = (db, nak_for msg id)
  from_request msg network id now r dev db (some requested_ip) =
      from_reservation msg network id now r dev db requested_ip
        (get_static_reservation db.tables network.id r.mac)

  unfoldable pub handle_request : Message Options → DhcpNetwork → ℕ → ℕ → Db D → Answer
  unfolding confirm_reservation confirm_lease
  handle_request msg network id now db =
      let r = from_message h.dhcproto msg in
      let dev = h.device_resolver.resolve db.devices r.mac r.guid in
      if for_other_server (extract_server_identifier h.dhcproto msg) id
      then (db, ok none)
      else if dev.is_disabled
      then (db, ok none)
      else from_request msg network id now r dev db (requested r)

  -- A release and a decline do the same.
  unfoldable pub handle_release : Message Options → Db D → Answer
  unfolding format_mac
  handle_release msg db =
      (record db { tables = release_lease (format_mac msg.chaddr) db.tables }, ok none)

  abbrev pub respond : Option DhcpOption → Message Options → DhcpNetwork → ℕ → ℕ → Db D → Answer
  respond (some (message_type discover)) msg network id now db =
      handle_discover msg network id now db
  respond (some (message_type request)) msg network id now db = handle_request msg network id now db
  respond (some (message_type release)) msg network id now db = handle_release msg db
  respond (some (message_type decline)) msg network id now db = handle_release msg db
  respond _ msg network id now db = (db, ok none)

  abbrev pub encoded :
      (Bytes → DhcpReply) → Option (Message Options) → Result DhcpError (Option DhcpReply)
  encoded make_reply none = ok none
  encoded make_reply (some reply) = do
    buf ← ok_or (h.dhcproto.encode reply) not_encoded
    ok (some (make_reply buf))

  abbrev pub send : (Bytes → DhcpReply) → Answer → Db D × Result DhcpError (Option DhcpReply)
  send make_reply (db, answer) = (db, answer >>= encoded make_reply)

  unfoldable pub process_and_reply :
      Message Options
      → DhcpNetwork
      → ℕ
      → (Bytes → DhcpReply)
      → ℕ
      → Db D
      → Db D × Result DhcpError (Option DhcpReply)
  unfolding handle_discover handle_request handle_release
  process_and_reply msg network id make_reply now db =
      send make_reply (respond (h.dhcproto.get 53 msg.opts) msg network id now db)

  abbrev pub for_relay :
      Option DhcpNetwork → Message Options → ℕ → Db D → Db D × Result DhcpError (Option DhcpReply)
  for_relay none msg now db = (db, ok none)
  for_relay (some network) msg now db =
      process_and_reply msg network h.server_identifier (λ data'. relay data' (msg.giaddr, 67)) now
        db

  abbrev pub for_l2 :
      Result DhcpError (Option (DhcpNetwork × ℕ))
      → Message Options
      → ℕ × ℕ
      → ℕ
      → Db D
      → Db D × Result DhcpError (Option DhcpReply)
  for_l2 (err e) msg peer now db = (db, err e)
  for_l2 (ok none) msg peer now db = (db, ok none)
  for_l2 (ok (some (network, local_ip))) msg peer now db =
      process_and_reply msg network local_ip (λ data'. l2 data' local_ip peer) now db

  abbrev pub with_network :
      Message Options → ℕ → ℕ × ℕ → ℕ → Db D → Db D × Result DhcpError (Option DhcpReply)
  with_network msg if_index peer now db =
      if not (msg.giaddr == 0)
      then for_relay (get_network_by_relay db.tables msg.giaddr) msg now db
      else for_l2
          (ok_or (h.interface_addresses if_index) no_interfaces
            >>= (λ ips. find_matching_l2_network ips (get_l2_networks db.tables)))
          msg peer now db

  abbrev pub if_decoded :
      Option (Message Options)
      → (Message Options → Db D → Db D × Result DhcpError (Option DhcpReply))
      → Db D
      → Db D × Result DhcpError (Option DhcpReply)
  if_decoded none handle db = (db, ok none)
  if_decoded (some msg) handle db = handle msg db

  unfoldable pub handle_packet :
      Bytes → ℕ → ℕ × ℕ → ℕ → Db D → Db D × Result DhcpError (Option DhcpReply)
  unfolding process_and_reply
  handle_packet text if_index peer now db =
      if_decoded (h.dhcproto.decode text) (λ msg. with_network msg if_index peer now) db

  abbrev pub located :
      Result DhcpError (Option DhcpNetwork) → ℕ → Result DhcpError (Option (DhcpNetwork × ℕ))
  located (err e) local_ip = err e
  located (ok none) local_ip = ok none
  located (ok (some network)) local_ip = ok (some (network, local_ip))

  unfoldable pub handle_l2_unicast_packet :
      Bytes → ℕ × ℕ → ℕ → ℕ → Db D → Db D × Result DhcpError (Option DhcpReply)
  unfolding process_and_reply
  handle_l2_unicast_packet text peer local_ip now db =
      if_decoded (h.dhcproto.decode text)
        (λ msg.
          for_l2 (located (find_l2_network_for_ip local_ip (get_l2_networks db.tables)) local_ip)
            msg peer now)
        db
