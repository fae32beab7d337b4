-- ===== src/Dhcp/Handler/Confirm.antt =====
-- dhcp/handler.rs: when a request is acknowledged.
use rack_director.Prelude.{
  ℕ, ◌≡◌, Bool, true, false, not, Option, none, some, Bytes, ◌==◌, if◌then◌else◌, ok, refl, sym, ap,
  subst, ==_iff, >>=-eq-ok, ◌∙◌,
}
use rack_director.Dhcp.Ipv4.{parse_ipv4}
use rack_director.Dhcp.Ipv4.Bounds.{parse_ipv4-lt}
use rack_director.Dhcp.Ipv4.RoundTrip.{parse_ipv4-format_ipv4}
use rack_director.Dhcp.Store.{
  Tables, DhcpNetwork, Lease, StaticReservation, get_static_reservation, get_lease_by_mac, active,
  activate_lease, create_or_update_lease_with_network,
}
use rack_director.Dhcp.Leases.Lookup.{lease_of, get_lease-stored, get_lease-activated}
use rack_director.Dhcp.Message.{Message, IsOptionMap, ack, nak}
use rack_director.Dhcp.Request.{RequestContext, from_message, extract_server_identifier}
use rack_director.Dhcp.DeviceResolution.{DeviceContext}
use rack_director.Dhcp.MessageBuilder.{build_ack, build_nak}
use rack_director.Dhcp.Handler.{
  DhcpHandler, Db, Answer, notify, confirm_reservation, confirm_lease, from_lease, from_reservation,
  from_request, handle_request, requested, for_other_server, nak_for, some_message,
}
use rack_director.Dhcp.Handler.Replies.{HasType, HasTime, build_ack-ok, build_nak-HasType}

-- The device has the address reserved in the network or, with no reservation, recorded in its lease.
pub data IsGranted (t : Tables) (network_id : ℕ) (mac : Bytes) (ip : ℕ) : Type 0 where
  by_reservation :
      (s : StaticReservation)
      → get_static_reservation t network_id mac ≡ some s
      → parse_ipv4 s.ip_address ≡ some ip
      → IsGranted t network_id mac ip
  by_lease :
      (l : Lease)
      → get_static_reservation t network_id mac ≡ none
      → get_lease_by_mac t mac ≡ some l
      → parse_ipv4 l.ip_address ≡ some ip
      → IsGranted t network_id mac ip

-- The table has an active lease of the device for the address.
pub record IsActive (t : Tables) (mac : Bytes) (ip : ℕ) : Type 0 where
  pub lease : Lease
  pub recorded : get_lease_by_mac t mac ≡ some lease
  pub is_active : lease.state ≡ active
  pub address : parse_ipv4 lease.ip_address ≡ some ip

module _ {D Options : Type 0} (h : DhcpHandler D Options) (laws : IsOptionMap h.dhcproto) where
  -- The answer is an acknowledgement.
  abbrev pub Acks : Answer h → Message Options → Type 0
  Acks answer reply = (answer.1 ≡ ok (some reply)) × HasType h.dhcproto ack reply

  -- What an acknowledgement shows.
  abbrev Shown : ℕ → Bytes → Db D → Db D → Message Options → ℕ → Type 0
  Shown network_id mac before after reply ip =
      (reply.yiaddr ≡ ip) × IsGranted before.tables network_id mac ip × IsActive after.tables mac ip

  pub nak-not_ack :
      (req reply : Message Options) (id : ℕ)
      → nak_for h req id ≡ ok (some reply)
      → HasType h.dhcproto ack reply
      → ⊥
  nak-not_ack req reply id e type =
      let same_reply : build_nak h.dhcproto req id ≡ reply = cc in
      let naks =
        subst (HasType h.dhcproto nak) same_reply (build_nak-HasType h.dhcproto laws req id) in
      let clash : ack ≡ nak = cc in cc clash

  pub notify-tables :
      (uuid : Option ℕ) (ip : ℕ) (mac : Bytes) (db : Db D)
      → (notify h uuid ip mac db).tables ≡ db.tables
  notify-tables none ip mac db = refl
  notify-tables (some uuid) ip mac db = refl

  -- A built acknowledgement carries the address and the network's lease time.
  pub sent-says :
      (msg reply : Message Options) (ip : ℕ) (network : DhcpNetwork) (r : RequestContext) (id : ℕ)
      → some_message h (build_ack h.dhcproto h.boot_config msg ip network r id) ≡ ok (some reply)
      → (reply.yiaddr ≡ ip) × HasTime h.dhcproto network.lease_duration reply
  sent-says msg reply ip network r id e =
      let (m, built, is_reply) =
        >>=-eq-ok (build_ack h.dhcproto h.boot_config msg ip network r id) _ (some reply) e in
      let same_reply : m ≡ reply = cc in
      let (_, addr, _, time) =
        build_ack-ok h.dhcproto laws h.boot_config msg ip network r id m built in
      (
        subst (λ (z : Message Options). z.yiaddr ≡ ip) same_reply addr,
        subst (HasTime h.dhcproto network.lease_duration) same_reply time,
      )

  module _ (msg : Message Options) (network : DhcpNetwork) (id now : ℕ) (r : RequestContext)
      (dev : DeviceContext) (db : Db D) (reply : Message Options) where
    abbrev IsShown : ℕ → Answer h → Type 0
    IsShown wanted answer = Shown network.id r.mac db answer.0 reply wanted

    reservation-Shown :
        (wanted : ℕ) (s : StaticReservation)
        → get_static_reservation db.tables network.id r.mac ≡ some s
        → (ip : Option ℕ) → parse_ipv4 s.ip_address ≡ ip
        → Acks (confirm_reservation h msg network id now r dev db wanted ip) reply
        → IsShown wanted (confirm_reservation h msg network id now r dev db wanted ip)
    unfolding confirm_reservation
    reservation-Shown wanted s found none e (sent, _) = cc
    reservation-Shown wanted s found (some ip) e acks = go (wanted == ip) refl acks
      where
        granted : Db D
        granted = record db {
          tables =
              create_or_update_lease_with_network r.mac ip dev.device_uuid active
                network.lease_duration network.id now db.tables;
        }

        answer : Bool → Answer h
        answer b = if not b then (db, nak_for h msg id) else (
          notify h dev.device_uuid ip r.mac granted,
          some_message h (build_ack h.dhcproto h.boot_config msg ip network r id),
        )

        active_now : IsActive granted.tables r.mac ip
        active_now = record {
          lease = lease_of r.mac ip dev.device_uuid active network.lease_duration network.id now;
          recorded =
              get_lease-stored r.mac ip dev.device_uuid active network.lease_duration network.id now
                db.tables;
          is_active = refl;
          address = parse_ipv4-format_ipv4 ip (parse_ipv4-lt s.ip_address ip e);
        }

        shown :
            some_message h (build_ack h.dhcproto h.boot_config msg ip network r id)
              ≡ ok (some reply)
            → IsShown ip (answer true)
        shown sent = (
          (sent-says msg reply ip network r id sent).0,
          by_reservation s found e,
          subst (λ (t : Tables). IsActive t r.mac ip)
              (sym (notify-tables dev.device_uuid ip r.mac granted)) active_now,
        )

        go : (b : Bool) → (wanted == ip) ≡ b → Acks (answer b) reply → IsShown wanted (answer b)
        go false _ (sent, type) = absurd (nak-not_ack msg reply id sent type)
        go true is_ip (sent, _) =
            subst (λ z. IsShown z (answer true)) (sym ((==_iff wanted ip).0 is_ip)) (shown sent)

    lease-Shown :
        (wanted : ℕ) (l : Lease)
        → get_static_reservation db.tables network.id r.mac ≡ none
        → get_lease_by_mac db.tables r.mac ≡ some l
        → (ip : Option ℕ) → parse_ipv4 l.ip_address ≡ ip
        → Acks (confirm_lease h msg network id r dev db wanted ip) reply
        → IsShown wanted (confirm_lease h msg network id r dev db wanted ip)
    unfolding confirm_lease
    lease-Shown wanted l unreserved found none e (sent, _) = cc
    lease-Shown wanted l unreserved found (some ip) e acks = go (ip == wanted) refl acks
      where
        granted : Db D
        granted = record db { tables = activate_lease r.mac db.tables }

        answer : Bool → Answer h
        answer b = if not b then (db, nak_for h msg id) else (
          notify h dev.device_uuid ip r.mac granted,
          some_message h (build_ack h.dhcproto h.boot_config msg ip network r id),
        )

        active_now : IsActive granted.tables r.mac ip
        active_now = record {
          lease = record l { state = active };
          recorded = get_lease-activated r.mac db.tables l found;
          is_active = refl;
          address = e;
        }

        shown :
            some_message h (build_ack h.dhcproto h.boot_config msg ip network r id)
              ≡ ok (some reply)
            → IsShown ip (answer true)
        shown sent = (
          (sent-says msg reply ip network r id sent).0,
          by_lease l unreserved found e,
          subst (λ (t : Tables). IsActive t r.mac ip)
              (sym (notify-tables dev.device_uuid ip r.mac granted)) active_now,
        )

        go : (b : Bool) → (ip == wanted) ≡ b → Acks (answer b) reply → IsShown wanted (answer b)
        go false _ (sent, type) = absurd (nak-not_ack msg reply id sent type)
        go true is_ip (sent, _) =
            subst (λ z. IsShown z (answer true)) ((==_iff ip wanted).0 is_ip) (shown sent)

    request-Shown :
        (wanted : Option ℕ)
        → Acks (from_request h msg network id now r dev db wanted) reply
        → (ip : ℕ) × (wanted ≡ some ip)
          × IsShown ip (from_request h msg network id now r dev db wanted)
    request-Shown none (sent, type) = absurd (nak-not_ack msg reply id sent type)
    request-Shown (some wanted) acks =
        (wanted, refl, of_reservation (get_static_reservation db.tables network.id r.mac) refl acks)
      where
        of_lease :
            (l : Option Lease)
            → get_static_reservation db.tables network.id r.mac ≡ none
            → get_lease_by_mac db.tables r.mac ≡ l
            → Acks (from_lease h msg network id r dev db wanted l) reply
            → IsShown wanted (from_lease h msg network id r dev db wanted l)
        of_lease none _ _ (sent, type) = absurd (nak-not_ack msg reply id sent type)
        of_lease (some l) unreserved found acks =
            lease-Shown wanted l unreserved found (parse_ipv4 l.ip_address) refl acks

        of_reservation :
            (s : Option StaticReservation)
            → get_static_reservation db.tables network.id r.mac ≡ s
            → Acks (from_reservation h msg network id now r dev db wanted s) reply
            → IsShown wanted (from_reservation h msg network id now r dev db wanted s)
        of_reservation none e acks = of_lease (get_lease_by_mac db.tables r.mac) e refl acks
        of_reservation (some s) e acks =
            reservation-Shown wanted s e (parse_ipv4 s.ip_address) refl acks

  -- An acknowledgement goes only to a device that is not disabled, for a request that names no other
  -- server. It carries the address that was requested, which is the device's reservation or, if
  -- it has none in the network, the address of its lease. Afterwards the table has an active lease
  -- of the device for that address.
  pub handle_request-Acks :
      (msg : Message Options) (network : DhcpNetwork) (id now : ℕ) (db : Db D)
      (reply : Message Options)
      → Acks (handle_request h msg network id now db) reply
      → (for_other_server (extract_server_identifier h.dhcproto msg) id ≡ false)
        × ((h.device_resolver.resolve db.devices
              (from_message h.dhcproto msg).mac
              (from_message h.dhcproto msg).guid).is_disabled
            ≡ false)
        × (requested (from_message h.dhcproto msg) ≡ some reply.yiaddr)
        × IsGranted db.tables network.id (from_message h.dhcproto msg).mac reply.yiaddr
        × IsActive
            (handle_request h msg network id now db).0.tables
            (from_message h.dhcproto msg).mac
            reply.yiaddr
  unfolding handle_request
  handle_request-Acks msg network id now db reply acks =
      go (for_other_server (extract_server_identifier h.dhcproto msg) id) dev.is_disabled acks
    where
      r : RequestContext
      r = from_message h.dhcproto msg

      dev : DeviceContext
      dev = h.device_resolver.resolve db.devices r.mac r.guid

      answer : Bool → Bool → Answer h
      answer b c =
          if b
          then (db, ok none)
          else if c
          then (db, ok none)
          else from_request h msg network id now r dev db (requested r)

      go :
          (b c : Bool)
          → Acks (answer b c) reply
          → (b ≡ false)
            × (c ≡ false)
            × (requested r ≡ some reply.yiaddr)
            × IsGranted db.tables network.id r.mac reply.yiaddr
            × IsActive (answer b c).0.tables r.mac reply.yiaddr
      go true c (sent, _) = cc
      go false true (sent, _) = cc
      go false false acks =
          let (ip, wanted, (addr, granted, recorded)) =
            request-Shown msg network id now r dev db reply (requested r) acks in
          (
            refl,
            refl,
            wanted ∙ ap some (sym addr),
            subst (λ z. IsGranted db.tables network.id r.mac z) (sym addr) granted,
            subst (λ z. IsActive (answer false false).0.tables r.mac z) (sym addr) recorded,
          )
