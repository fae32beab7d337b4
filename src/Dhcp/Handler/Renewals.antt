-- ===== src/Dhcp/Handler/Renewals.antt =====
-- dhcp/handler.rs: what becomes of a lease that is renewed or declined.
use rack_director.Prelude.{
  ℕ, ◌≡◌, Bool, true, false, not, Option, none, some, Bytes, ◌==◌, if◌then◌else◌, ok, refl, sym, ap,
  subst, ==_iff, ◌∙◌,
}
use rack_director.Dhcp.Ipv4.{parse_ipv4}
use rack_director.Dhcp.Store.{
  Tables, DhcpNetwork, Lease, get_static_reservation, get_lease_by_mac, active, released,
  is_expired, release_lease, activate_lease,
}
use rack_director.Dhcp.Allocator.{allocate_for_mac_in_network}
use rack_director.Dhcp.Leases.Lookup.{get_lease-activated, get_lease-released}
use rack_director.Dhcp.Message.{Message, IsOptionMap}
use rack_director.Dhcp.Request.{RequestContext, format_mac, from_message, extract_server_identifier}
use rack_director.Dhcp.DeviceResolution.{DeviceContext}
use rack_director.Dhcp.MessageBuilder.{build_ack}
use rack_director.Dhcp.Handler.{
  DhcpHandler, Db, Answer, handle_release, confirm_lease, from_request, nak_for, notify,
  some_message, handle_request, requested, for_other_server,
}
use rack_director.Dhcp.Handler.Replies.{HasTime}
use rack_director.Dhcp.Handler.Confirm.{Acks, nak-not_ack, notify-tables, sent-says}

same_reservation :
    (mac m : Bytes) (n : ℕ) (t : Tables)
    → get_static_reservation (release_lease mac t) n m ≡ get_static_reservation t n m
unfolding get_static_reservation release_lease
same_reservation mac m n t = refl

released_running :
    (now : ℕ) (l : Lease)
    → is_expired now l ≡ false
    → is_expired now (record l { state = released }) ≡ false
unfolding is_expired
released_running now l h = h

module _ {D Options : Type 0} (h : DhcpHandler D Options) where
  -- After a decline or a release, as long as the lease would have run, the same device is given the
  -- same address again, if it has no reservation in the network.
  pub allocate-handle_release :
      (msg : Message Options) (db : Db D) (n later a : ℕ) (l : Lease)
      → get_static_reservation db.tables n (format_mac msg.chaddr) ≡ none
      → get_lease_by_mac db.tables (format_mac msg.chaddr) ≡ some l
      → is_expired later l ≡ false
      → l.network_id ≡ some n
      → parse_ipv4 l.ip_address ≡ some a
      → allocate_for_mac_in_network
          (handle_release h msg db).0.tables
          (format_mac msg.chaddr)
          n
          later
        ≡ ok a
  unfolding handle_release allocate_for_mac_in_network
  allocate-handle_release msg db n later a l unreserved found live here e =
      let mac = format_mac msg.chaddr in
      rw
        (
          same_reservation mac mac n db.tables ∙ unreserved,
          get_lease-released mac db.tables l found,
          released_running later l live,
          here,
          (==_iff n n).1 refl,
          e,
        )
        refl

module _ {D Options : Type 0} (h : DhcpHandler D Options) (laws : IsOptionMap h.dhcproto)
    (msg : Message Options) (network : DhcpNetwork) (id : ℕ) (r : RequestContext)
    (dev : DeviceContext) (db : Db D) (reply : Message Options) (l : Lease)
    (found : get_lease_by_mac db.tables r.mac ≡ some l) where
  abbrev Renewed : Answer h → Type 0
  Renewed answer =
      HasTime h.dhcproto network.lease_duration reply
      × (get_lease_by_mac answer.0.tables r.mac ≡ some (record l { state = active }))

  confirm_lease-Renewed :
      (wanted : ℕ) (ip : Option ℕ)
      → Acks h laws (confirm_lease h msg network id r dev db wanted ip) reply
      → Renewed (confirm_lease h msg network id r dev db wanted ip)
  unfolding confirm_lease
  confirm_lease-Renewed wanted none (sent, _) = cc
  confirm_lease-Renewed wanted (some ip) acks = go (ip == wanted) acks
    where
      granted : Db D
      granted = record db { tables = activate_lease r.mac db.tables }

      answer : Bool → Answer h
      answer b = if not b then (db, nak_for h msg id) else (
        notify h dev.device_uuid ip r.mac granted,
        some_message h (build_ack h.dhcproto h.boot_config msg ip network r id),
      )

      go : (b : Bool) → Acks h laws (answer b) reply → Renewed (answer b)
      go false (sent, type) = absurd (nak-not_ack h laws msg reply id sent type)
      go true (sent, _) = (
        (sent-says h laws msg reply ip network r id sent).1,
        ap (λ (t : Tables). get_lease_by_mac t r.mac)
              (notify-tables h laws dev.device_uuid ip r.mac granted)
            ∙ get_lease-activated r.mac db.tables l found,
      )

  request-Renewed :
      (now : ℕ) (wanted : Option ℕ)
      → get_static_reservation db.tables network.id r.mac ≡ none
      → Acks h laws (from_request h msg network id now r dev db wanted) reply
      → Renewed (from_request h msg network id now r dev db wanted)
  request-Renewed now none _ (sent, type) = absurd (nak-not_ack h laws msg reply id sent type)
  request-Renewed now (some wanted) unreserved acks =
      subst (λ a. Renewed a) (sym by_lease)
        (confirm_lease-Renewed wanted (parse_ipv4 l.ip_address)
          (subst (λ a. Acks h laws a reply) by_lease acks))
    where
      by_lease :
          from_request h msg network id now r dev db (some wanted)
          ≡ confirm_lease h msg network id r dev db wanted (parse_ipv4 l.ip_address)
      by_lease = rw (unreserved, found) refl

module _ {D Options : Type 0} (h : DhcpHandler D Options) (laws : IsOptionMap h.dhcproto) where
  -- An acknowledgement that goes by a lease gives the device the address for the network's lease
  -- time, but the lease in the table ends when it ended before.
  pub handle_request-keeps_lease_end :
      (msg : Message Options) (network : DhcpNetwork) (id now : ℕ) (db : Db D)
      (reply : Message Options) (l : Lease)
      → get_static_reservation db.tables network.id (from_message h.dhcproto msg).mac ≡ none
      → get_lease_by_mac db.tables (from_message h.dhcproto msg).mac ≡ some l
      → Acks h laws (handle_request h msg network id now db) reply
      → HasTime h.dhcproto network.lease_duration reply
        × (get_lease_by_mac
              (handle_request h msg network id now db).0.tables
              (from_message h.dhcproto msg).mac
            ≡ some (record l { state = active }))
  unfolding handle_request
  handle_request-keeps_lease_end msg network id now db reply l unreserved found acks =
      go (for_other_server (extract_server_identifier h.dhcproto msg) id) dev.is_disabled acks
    where
      r : RequestContext
      r = from_message h.dhcproto msg

      dev : DeviceContext
      dev = h.device_resolver.resolve db.devices r.mac r.guid

      answer : Bool → Bool → Answer h
      answer b c =
          if b
          then (db, ok none)
          else if c
          then (db, ok none)
          else from_request h msg network id now r dev db (requested r)

      go :
          (b c : Bool)
          → Acks h laws (answer b c) reply
          → Renewed h laws msg network id r dev db reply l found (answer b c)
      go true c (sent, _) = cc
      go false true (sent, _) = cc
      go false false acks =
          request-Renewed h laws msg network id r dev db reply l found now (requested r) unreserved
            acks
