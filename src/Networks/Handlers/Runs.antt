-- ===== src/Networks/Handlers/Runs.antt =====
-- http/ui/networks.rs: any sequence of requests, and the DHCP server after it.
use rack_director.Prelude.{
  ℕ, suc, ◌≤◌, ◌≡◌, refl, sym, ap, subst, false, some, List, [], ◌∷◌, ok, ok_or,
}
use rack_director.Dhcp.Store.{DhcpNetwork, DhcpPool, StaticReservation}
use rack_director.Dhcp.Message.{Message, IsOptionMap, offer}
use rack_director.Dhcp.Request.{from_message}
use rack_director.Dhcp.MessageBuilder.{map_err, not_an_address}
use rack_director.Dhcp.Handler.{DhcpHandler, Db, Answer, allocate, handle_discover, offer_address}
use rack_director.Dhcp.Handler.Replies.{HasType, HasTime, Parses, build_offer-Parses}
use rack_director.Networks.Requests.{CreateNetworkRequest, UpdateNetworkRequest}
use rack_director.Networks.Handlers.{
  AppState, create_network, update_network, delete_network, create_pool, create_static_reservation,
}
use rack_director.Networks.Handlers.Sound.{IsSound, IsServable, Mem}
use rack_director.Networks.Handlers.Kept.{update_network-IsSound}
use rack_director.Networks.Handlers.Reserved.{
  create_pool-networks, create_static_reservation-networks,
}
use rack_director.Networks.Handlers.Created.{create_network-IsSound, delete_network-IsSound}

pub data Request : Type 0 where
  create : CreateNetworkRequest → Request
  update : ℕ → UpdateNetworkRequest → Request
  delete : ℕ → Request
  pool : DhcpPool → Request
  reserve_address : StaticReservation → Request

-- The database gives a row an id above all those before it.
pub record Site : Type 0 where
  pub app : AppState
  pub next_id : ℕ

unfoldable pub serve : Site → Request → Site
serve s (create req) = record {
  app = (create_network s.next_id req s.app).0;
  next_id = suc s.next_id;
}
serve s (update id req) = record s { app = (update_network id req s.app).0 }
serve s (delete id) = record s { app = delete_network id s.app }
serve s (pool p) = record s { app = (create_pool p s.app).0 }
serve s (reserve_address r) = record s { app = (create_static_reservation r s.app).0 }

unfoldable pub serve_all : Site → List Request → Site
serve_all s [] = s
serve_all s (r ∷ rs) = serve_all (serve s r) rs

abbrev pub networks_of : Site → List DhcpNetwork
networks_of s = s.app.tables.networks

abbrev pub IsSoundSite : Site → Type 0
IsSoundSite s = IsSound s.next_id s.app.tables.networks

serve-IsSoundSite : (s : Site) (r : Request) → IsSoundSite s → IsSoundSite (serve s r)
unfolding serve
serve-IsSoundSite s (create req) sound = create_network-IsSound s.next_id req s.app sound
serve-IsSoundSite s (update id req) sound = update_network-IsSound s.next_id id req s.app sound
serve-IsSoundSite s (delete id) sound = delete_network-IsSound s.next_id id s.app sound
serve-IsSoundSite s (pool p) sound =
    subst (IsSound s.next_id) (sym (create_pool-networks p s.app)) sound
serve-IsSoundSite s (reserve_address r) sound =
    subst (IsSound s.next_id) (sym (create_static_reservation-networks r s.app)) sound

-- The networks stay sound under every sequence of requests, those that are refused included: each has
-- a name, a subnet that its gateway lies in, a list of servers and a duration that can be read, and no
-- two have an id, a name or a relay agent in common.
pub serve_all-IsSoundSite :
    (s : Site) (rs : List Request) → IsSoundSite s → IsSoundSite (serve_all s rs)
unfolding serve_all
serve_all-IsSoundSite s [] sound = sound
serve_all-IsSoundSite s (r ∷ rs) sound =
    serve_all-IsSoundSite (serve s r) rs (serve-IsSoundSite s r sound)

module _ {D Options : Type 0} (h : DhcpHandler D Options) (laws : IsOptionMap h.dhcproto) where
  servable-Parses : (n : DhcpNetwork) → IsServable n → Parses h.dhcproto n
  servable-Parses n servable =
      let (s, g, p, q, _) = servable.subnet in
      (s, g, ap map_err p, ap (λ o. ok_or o not_an_address) q)

  -- The answer offers the address for the network's time.
  abbrev pub Offers : DhcpNetwork → ℕ → Answer h → Type 0
  Offers network ip answer =
      (reply : Message Options) × (answer.1 ≡ ok (some reply))
      × (reply.yiaddr ≡ ip)
      × HasType h.dhcproto offer reply
      × HasTime h.dhcproto network.lease_duration reply

  -- Whatever requests the operator made of a sound site, a discovery on one of its networks is
  -- answered with an offer, of the address that the allocator finds and for at least a second, unless
  -- the interface is disabled or the allocator finds none.
  pub handle_discover-serve_all :
      (s : Site) (rs : List Request) (network : DhcpNetwork) (msg : Message Options) (id now ip : ℕ)
      (db : Db D)
      → IsSoundSite s
      → Mem network (networks_of (serve_all s rs))
      → (h.device_resolver.resolve db.devices
          (from_message h.dhcproto msg).mac
          (from_message h.dhcproto msg).guid).is_disabled
        ≡ false
      → allocate
          (h.device_resolver.resolve db.devices
            (from_message h.dhcproto msg).mac
            (from_message h.dhcproto msg).guid).device_uuid
          db.tables
          (from_message h.dhcproto msg).mac
          network.id
          now
        ≡ ok ip
      → Offers network ip (handle_discover h msg network id now db) × (1 ≤ network.lease_duration)
  unfolding handle_discover offer_address
  handle_discover-serve_all s rs network msg id now ip db sound stored enabled found =
      let servable = (serve_all-IsSoundSite s rs sound).each network stored in
      let r = from_message h.dhcproto msg in
      let (m, e, addr, type, time) =
        build_offer-Parses h.dhcproto laws h.boot_config msg ip network r id
          (servable-Parses network servable) in
      (rw (enabled, found, e) (m, refl, addr, type, time), servable.lease_duration.0)
