-- ===== src/Dhcp/Handler/Writes/Answers.antt =====
-- dhcp/handler.rs: what the four handlers write.
use rack_director.Prelude.{
  ℕ, ◌≡◌, Bool, true, false, not, Option, none, some, Bytes, ◌==◌, if◌then◌else◌, Result, ok, err,
  refl, sym,
}
use rack_director.Dhcp.Ipv4.{parse_ipv4}
use rack_director.Dhcp.Ipv4.Bounds.{parse_ipv4-lt}
use rack_director.Dhcp.Store.{
  DhcpNetwork, Lease, StaticReservation, get_static_reservation, get_lease_by_mac, activate_lease,
  release_lease, create_or_update_lease_with_network, offered, active, released,
}
use rack_director.Dhcp.Allocator.{AllocationError, allocate_for_mac_in_network}
use rack_director.Dhcp.Allocator.Sources.{reserved, allocate_for_mac-IsSource}
use rack_director.Dhcp.Leases.{Change, same, stored, marked}
use rack_director.Dhcp.Message.{
  Message, DhcpOption, message_type, discover, request, release, decline,
}
use rack_director.Dhcp.Request.{RequestContext, from_message, extract_server_identifier, format_mac}
use rack_director.Dhcp.DeviceResolution.{DeviceContext}
use rack_director.Dhcp.MessageBuilder.{build_ack}
use rack_director.Dhcp.Handler.{
  DhcpHandler, Db, allocate, Answer, offer_address, handle_discover, notify, confirm_reservation,
  confirm_lease, from_lease, from_reservation, from_request, handle_request, handle_release,
  respond, requested, for_other_server, nak_for, some_message,
}
use rack_director.Dhcp.Handler.Writes.Given.{IsSource-lt, allocate-mac}

module _ {D Options : Type 0} (h : DhcpHandler D Options) where
  abbrev pub Writes : ℕ → Db D → Db D → Type 0
  Writes now db db' = Change now db.tables db'.tables

  abbrev Answers : ℕ → Db D → Answer h → Type 0
  Answers now db answer = Change now db.tables answer.0.tables

  offer_address-Writes :
      (msg : Message Options) (network : DhcpNetwork) (id now : ℕ) (r : RequestContext)
      (dev : DeviceContext) (db : Db D) (result : Result AllocationError ℕ)
      → allocate_for_mac_in_network db.tables r.mac network.id now ≡ result
      → Writes now db (offer_address h msg network id now r dev db result).0
  unfolding offer_address
  offer_address-Writes msg network id now r dev db (err e) _ = same
  offer_address-Writes msg network id now r dev db (ok ip) e =
      let source = allocate_for_mac-IsSource db.tables r.mac network.id now ip e in
      stored r.mac ip dev.device_uuid offered network.lease_duration network.id source
        (IsSource-lt db.tables r.mac network.id now ip source)

  handle_discover-Writes :
      (msg : Message Options) (network : DhcpNetwork) (id now : ℕ) (db : Db D)
      → Writes now db (handle_discover h msg network id now db).0
  unfolding handle_discover
  handle_discover-Writes msg network id now db = go dev.is_disabled
    where
      r : RequestContext
      r = from_message h.dhcproto msg

      dev : DeviceContext
      dev = h.device_resolver.resolve db.devices r.mac r.guid

      found : Result AllocationError ℕ
      found = allocate dev.device_uuid db.tables r.mac network.id now

      go :
          (b : Bool)
          → Writes now db
              (if b then (db, ok none) else offer_address h msg network id now r dev db found).0
      go true = same
      go false =
          offer_address-Writes msg network id now r dev db found
            (sym (allocate-mac dev.device_uuid db.tables r.mac network.id now))

  notify-Writes :
      (now : ℕ) (uuid : Option ℕ) (ip : ℕ) (mac : Bytes) (db db' : Db D)
      → Writes now db db'
      → Writes now db (notify h uuid ip mac db')
  notify-Writes now none ip mac db db' w = w
  notify-Writes now (some uuid) ip mac db db' w = w

  confirm_reservation-Writes :
      (msg : Message Options) (network : DhcpNetwork) (id now : ℕ) (r : RequestContext)
      (dev : DeviceContext) (db : Db D) (wanted : ℕ) (s : StaticReservation)
      → get_static_reservation db.tables network.id r.mac ≡ some s
      → (ip : Option ℕ) → parse_ipv4 s.ip_address ≡ ip
      → Writes now db (confirm_reservation h msg network id now r dev db wanted ip).0
  unfolding confirm_reservation
  confirm_reservation-Writes msg network id now r dev db wanted s found none e = same
  confirm_reservation-Writes msg network id now r dev db wanted s found (some ip) e =
      go (wanted == ip)
    where
      go :
          (b : Bool)
          → Answers now db (
              if not b then (db, nak_for h msg id) else (
                notify h dev.device_uuid ip r.mac (record db {
                  tables =
                      create_or_update_lease_with_network r.mac ip dev.device_uuid active
                        network.lease_duration network.id now db.tables;
                }),
                some_message h (build_ack h.dhcproto h.boot_config msg ip network r id),
              ))
      go true = notify-Writes now dev.device_uuid ip r.mac db _ (
          stored r.mac ip dev.device_uuid active network.lease_duration network.id
            (reserved s found e) (parse_ipv4-lt s.ip_address ip e))
      go false = same

  confirm_lease-Writes :
      (msg : Message Options) (network : DhcpNetwork) (id now : ℕ) (r : RequestContext)
      (dev : DeviceContext) (db : Db D) (wanted : ℕ) (ip : Option ℕ)
      → Writes now db (confirm_lease h msg network id r dev db wanted ip).0
  unfolding confirm_lease activate_lease
  confirm_lease-Writes msg network id now r dev db wanted none = same
  confirm_lease-Writes msg network id now r dev db wanted (some ip) = go (ip == wanted)
    where
      go :
          (b : Bool)
          → Answers now db (
              if not b then (db, nak_for h msg id) else (
                notify h dev.device_uuid ip r.mac
                    (record db { tables = activate_lease r.mac db.tables }),
                some_message h (build_ack h.dhcproto h.boot_config msg ip network r id),
              ))
      go true = notify-Writes now dev.device_uuid ip r.mac db _ (marked r.mac active)
      go false = same

  from_request-Writes :
      (msg : Message Options) (network : DhcpNetwork) (id now : ℕ) (r : RequestContext)
      (dev : DeviceContext) (db : Db D) (wanted : Option ℕ)
      → Writes now db (from_request h msg network id now r dev db wanted).0
  from_request-Writes msg network id now r dev db none = same
  from_request-Writes msg network id now r dev db (some wanted) =
      by_reservation (get_static_reservation db.tables network.id r.mac) refl
    where
      by_lease :
          (l : Option Lease) → Writes now db (from_lease h msg network id r dev db wanted l).0
      by_lease none = same
      by_lease (some l) =
          confirm_lease-Writes msg network id now r dev db wanted (parse_ipv4 l.ip_address)

      by_reservation :
          (s : Option StaticReservation)
          → get_static_reservation db.tables network.id r.mac ≡ s
          → Writes now db (from_reservation h msg network id now r dev db wanted s).0
      by_reservation none e = by_lease (get_lease_by_mac db.tables r.mac)
      by_reservation (some s) e =
          confirm_reservation-Writes msg network id now r dev db wanted s e
            (parse_ipv4 s.ip_address) refl

  handle_request-Writes :
      (msg : Message Options) (network : DhcpNetwork) (id now : ℕ) (db : Db D)
      → Writes now db (handle_request h msg network id now db).0
  unfolding handle_request
  handle_request-Writes msg network id now db =
      go (for_other_server (extract_server_identifier h.dhcproto msg) id) dev.is_disabled
    where
      r : RequestContext
      r = from_message h.dhcproto msg

      dev : DeviceContext
      dev = h.device_resolver.resolve db.devices r.mac r.guid

      go :
          (b c : Bool)
          → Writes now db
              (if b
                then (db, ok none)
                else if c
                then (db, ok none)
                else from_request h msg network id now r dev db (requested r)).0
      go true c = same
      go false true = same
      go false false = from_request-Writes msg network id now r dev db (requested r)

  handle_release-Writes :
      (msg : Message Options) (now : ℕ) (db : Db D) → Writes now db (handle_release h msg db).0
  unfolding handle_release release_lease
  handle_release-Writes msg now db = marked (format_mac msg.chaddr) released

  pub respond-Writes :
      (o : Option DhcpOption) (msg : Message Options) (network : DhcpNetwork) (id now : ℕ)
      (db : Db D)
      → Writes now db (respond h o msg network id now db).0
  respond-Writes (some (message_type discover)) msg network id now db =
      handle_discover-Writes msg network id now db
  respond-Writes (some (message_type request)) msg network id now db =
      handle_request-Writes msg network id now db
  respond-Writes (some (message_type release)) msg network id now db =
      handle_release-Writes msg now db
  respond-Writes (some (message_type decline)) msg network id now db =
      handle_release-Writes msg now db
  respond-Writes _ msg network id now db = same
