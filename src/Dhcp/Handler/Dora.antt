-- ===== src/Dhcp/Handler/Dora.antt =====
-- dhcp/handler.rs: a device that asks for the address it was offered gets it.
use rack_director.Prelude.{
  ℕ, ◌≡◌, Bool, true, false, Option, none, some, Bytes, if◌then◌else◌, Result, ok, err, refl, sym,
  ap, subst, ==_iff, >>=-eq-ok, ◌∙◌,
}
use rack_director.Dhcp.Ipv4.{parse_ipv4}
use rack_director.Dhcp.Ipv4.RoundTrip.{parse_ipv4-format_ipv4}
use rack_director.Dhcp.Store.{
  Tables, DhcpNetwork, Lease, StaticReservation, get_static_reservation, get_lease_by_mac, offered,
  create_or_update_lease_with_network,
}
use rack_director.Dhcp.Allocator.{AllocationError, allocate_for_mac_in_network}
use rack_director.Dhcp.Allocator.Sources.{
  IsSource, reserved, leased, pooled, allocate_for_mac-IsSource,
}
use rack_director.Dhcp.Leases.Lookup.{lease_of, get_lease-stored}
use rack_director.Dhcp.Message.{Message, IsOptionMap, ack, offer}
use rack_director.Dhcp.Request.{RequestContext, from_message, extract_server_identifier}
use rack_director.Dhcp.DeviceResolution.{DeviceContext}
use rack_director.Dhcp.MessageBuilder.{build_ack, build_offer}
use rack_director.Dhcp.Handler.{
  DhcpHandler, Db, allocate, Answer, offer_address, handle_discover, confirm_reservation,
  confirm_lease, from_request, handle_request, requested, for_other_server, some_message,
}
use rack_director.Dhcp.Handler.Replies.{HasType, Parses, build_ack-Parses, build_offer-ok}
use rack_director.Dhcp.Handler.Writes.Given.{IsSource-lt, allocate-mac}

module _ {D Options : Type 0} (h : DhcpHandler D Options) (laws : IsOptionMap h.dhcproto) where
  -- What an offer leaves behind.
  record Offered (n : DhcpNetwork) (mac : Bytes) (now : ℕ) (t : Tables) (ip : ℕ) : Type 0 where
    network_fine : Parses h.dhcproto n
    before : Tables
    source : IsSource before mac n.id now ip
    uuid : Option ℕ
    after :
        t ≡ create_or_update_lease_with_network mac ip uuid offered n.lease_duration n.id now before

  offer_address-Offered :
      (msg : Message Options) (network : DhcpNetwork) (id now : ℕ) (r : RequestContext)
      (dev : DeviceContext) (db : Db D) (reply : Message Options)
      (result : Result AllocationError ℕ)
      → allocate_for_mac_in_network db.tables r.mac network.id now ≡ result
      → (offer_address h msg network id now r dev db result).1 ≡ ok (some reply)
      → Offered network r.mac now
          (offer_address h msg network id now r dev db result).0.tables
          reply.yiaddr
        × HasType h.dhcproto offer reply
  unfolding offer_address
  offer_address-Offered msg network id now r dev db reply (err e) _ sent = cc
  offer_address-Offered msg network id now r dev db reply (ok ip) e sent =
      let (m, built, is_reply) =
        >>=-eq-ok (build_offer h.dhcproto h.boot_config msg ip network r id) _ (some reply) sent in
      let same_reply : m ≡ reply = cc in
      let (fine, addr, type, _) =
        build_offer-ok h.dhcproto laws h.boot_config msg ip network r id m built in
      let source = allocate_for_mac-IsSource db.tables r.mac network.id now ip e in
      (
        subst (λ z. Offered network r.mac now (stored_for ip) z)
            (sym addr ∙ ap (λ (z : Message Options). z.yiaddr) same_reply)
            (record {
              network_fine = fine;
              before = db.tables;
              source = source;
              uuid = dev.device_uuid;
              after = refl;
            }),
        subst (HasType h.dhcproto offer) same_reply type,
      )
    where
      stored_for : ℕ → Tables
      stored_for ip =
          create_or_update_lease_with_network r.mac ip dev.device_uuid offered
            network.lease_duration network.id now db.tables

  -- The answer acknowledges the address.
  abbrev pub Granted : ℕ → Answer h → Type 0
  Granted ip answer =
      (reply : Message Options) × (answer.1 ≡ ok (some reply))
      × (reply.yiaddr ≡ ip)
      × HasType h.dhcproto ack reply

  module _ (msg : Message Options) (network : DhcpNetwork) (id now : ℕ) (r : RequestContext)
      (dev : DeviceContext) (db : Db D) (ip : ℕ) (fine : Parses h.dhcproto network) where
    sent :
        (reply : Message Options) × (some_message h
            (build_ack h.dhcproto h.boot_config msg ip network r id)
          ≡ ok (some reply))
        × (reply.yiaddr ≡ ip)
        × HasType h.dhcproto ack reply
    sent =
        let (m, built, addr, type, _) =
          build_ack-Parses h.dhcproto laws h.boot_config msg ip network r id fine in
        (m, rw built refl, addr, type)

    reservation-Granted :
        (s : StaticReservation)
        → parse_ipv4 s.ip_address ≡ some ip
        → Granted ip
            (confirm_reservation h msg network id now r dev db ip (parse_ipv4 s.ip_address))
    unfolding confirm_reservation
    reservation-Granted s e = rw (e, (==_iff ip ip).1 refl) sent

    lease-Granted :
        (l : Lease)
        → parse_ipv4 l.ip_address ≡ some ip
        → Granted ip (confirm_lease h msg network id r dev db ip (parse_ipv4 l.ip_address))
    unfolding confirm_lease
    lease-Granted l e = rw (e, (==_iff ip ip).1 refl) sent

    module _ {earlier : ℕ} (o : Offered network r.mac earlier db.tables ip) where
      same_reservation :
          get_static_reservation db.tables network.id r.mac
          ≡ get_static_reservation o.before network.id r.mac
      unfolding get_static_reservation create_or_update_lease_with_network
      same_reservation = ap (λ (t : Tables). get_static_reservation t network.id r.mac) o.after

      abbrev offered_lease : Lease
      offered_lease = lease_of r.mac ip o.uuid offered network.lease_duration network.id earlier

      offer_recorded : get_lease_by_mac db.tables r.mac ≡ some offered_lease
      offer_recorded =
          ap (λ (t : Tables). get_lease_by_mac t r.mac) o.after
          ∙ get_lease-stored r.mac ip o.uuid offered network.lease_duration network.id earlier
              o.before

      with_reservation :
          (s : StaticReservation)
          → get_static_reservation o.before network.id r.mac ≡ some s
          → parse_ipv4 s.ip_address ≡ some ip
          → Granted ip (from_request h msg network id now r dev db (some ip))
      with_reservation s found e = rw (same_reservation ∙ found) (reservation-Granted s e)

      unreserved :
          get_static_reservation o.before network.id r.mac ≡ none
          → Granted ip (from_request h msg network id now r dev db (some ip))
      unreserved none_found =
          rw (same_reservation ∙ none_found, offer_recorded)
            (lease-Granted offered_lease (
              parse_ipv4-format_ipv4 ip
                (IsSource-lt o.before r.mac network.id earlier ip o.source)))

      request-Granted : Granted ip (from_request h msg network id now r dev db (some ip))
      request-Granted = elim o.source [
        | reserved s found e ↦ with_reservation s found e
        | leased _ none_found _ _ _ _ ↦ unreserved none_found
        | pooled none_found _ _ _ ↦ unreserved none_found
      ]

  discover-Offered :
      (msg : Message Options) (network : DhcpNetwork) (id now : ℕ) (db : Db D)
      (reply : Message Options)
      → (handle_discover h msg network id now db).1 ≡ ok (some reply)
      → Offered network
          (from_message h.dhcproto msg).mac
          now
          (handle_discover h msg network id now db).0.tables
          reply.yiaddr
        × HasType h.dhcproto offer reply
  unfolding handle_discover
  discover-Offered msg network id now db reply sent = go dev.is_disabled sent
    where
      r : RequestContext
      r = from_message h.dhcproto msg

      dev : DeviceContext
      dev = h.device_resolver.resolve db.devices r.mac r.guid

      found : Result AllocationError ℕ
      found = allocate dev.device_uuid db.tables r.mac network.id now

      answer : Bool → Answer h
      answer b = if b then (db, ok none) else offer_address h msg network id now r dev db found

      go :
          (b : Bool)
          → (answer b).1 ≡ ok (some reply)
          → Offered network r.mac now (answer b).0.tables reply.yiaddr
            × HasType h.dhcproto offer reply
      go true sent = cc
      go false sent =
          offer_address-Offered msg network id now r dev db reply found
            (sym (allocate-mac dev.device_uuid db.tables r.mac network.id now)) sent

  -- A reply to a discovery is an offer. If the device then asks for the offered address, at any
  -- time, while the tables are as the offer left them, its interface is not disabled and it names no
  -- other server, then the answer is an acknowledgement with that address.
  pub handle_request-handle_discover :
      (msg req : Message Options) (network : DhcpNetwork) (id now later : ℕ) (db db' : Db D)
      (reply : Message Options)
      → (handle_discover h msg network id now db).1 ≡ ok (some reply)
      → db'.tables ≡ (handle_discover h msg network id now db).0.tables
      → (from_message h.dhcproto req).mac ≡ (from_message h.dhcproto msg).mac
      → requested (from_message h.dhcproto req) ≡ some reply.yiaddr
      → for_other_server (extract_server_identifier h.dhcproto req) id ≡ false
      → (h.device_resolver.resolve db'.devices
          (from_message h.dhcproto req).mac
          (from_message h.dhcproto req).guid).is_disabled
        ≡ false
      → HasType h.dhcproto offer reply
        × Granted reply.yiaddr (handle_request h req network id later db')
  unfolding handle_request
  handle_request-handle_discover msg req network id now later db db' reply sent kept same_mac wanted
        ours enabled =
      let (o, type) = discover-Offered msg network id now db reply sent in
      let o' : Offered network (from_message h.dhcproto req).mac now db'.tables reply.yiaddr =
        subst (λ z. Offered network z now db'.tables reply.yiaddr) (sym same_mac)
          (subst
            (λ (t : Tables). Offered network (from_message h.dhcproto msg).mac now t reply.yiaddr)
            (sym kept) o) in
      (
        type,
        go (for_other_server (extract_server_identifier h.dhcproto req) id) dev.is_disabled
            (requested r) ours enabled wanted
            (request-Granted req network id later r dev db' reply.yiaddr o.network_fine o'),
      )
    where
      r : RequestContext
      r = from_message h.dhcproto req

      dev : DeviceContext
      dev = h.device_resolver.resolve db'.devices r.mac r.guid

      go :
          (b c : Bool) (w : Option ℕ)
          → b ≡ false
          → c ≡ false
          → w ≡ some reply.yiaddr
          → Granted reply.yiaddr (from_request h req network id later r dev db' (some reply.yiaddr))
          → Granted reply.yiaddr (
              if b
              then (db', ok none)
              else if c
              then (db', ok none)
              else from_request h req network id later r dev db' w)
      go b c w p q e g = rw (p, q, e) g
