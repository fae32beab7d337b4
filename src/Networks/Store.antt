-- ===== src/Networks/Store.antt =====
-- dhcp/store.rs: the statements that set up networks, pools and reservations. A statement that breaks
-- a constraint of the schema changes nothing; the id of a new row is the caller's, as the database
-- chooses it.
use rack_director.Prelude.{
  ℕ, Bool, true, false, not, ◌&&◌, Option, none, some, List, ◌∷◌, Bytes, str_eq, ◌==◌,
  if◌then◌else◌, find, map, any, is_empty, is_some, Result, ok, err, ok_or,
}
use rack_director.Dhcp.Store.{
  Tables, DhcpNetwork, DhcpPool, StaticReservation, Lease, is_text, is_network, filter,
}

pub data StoreError : Type 0 where
  constraint no_row : StoreError

unfoldable pub get_network : Tables → ℕ → Option DhcpNetwork
get_network t id = find (λ n. n.id == id) t.networks

unfoldable pub get_network_by_name : Tables → Bytes → Option DhcpNetwork
get_network_by_name t name = find (λ n. str_eq n.name name) t.networks

abbrev pub is_local : Option Bytes → Bool
is_local none = true
is_local (some r) = is_empty r

unfoldable pub get_network_by_relay_string : Tables → Option Bytes → Option DhcpNetwork
get_network_by_relay_string t none = find (λ n. is_local n.relay_agent_address) t.networks
get_network_by_relay_string t (some r) =
    if is_empty r
    then find (λ n. is_local n.relay_agent_address) t.networks
    else find (λ n. is_text n.relay_agent_address r) t.networks

-- The row that `INSERT` adds, and the row read back.
unfoldable pub create_network : DhcpNetwork → Tables → Tables × Result StoreError DhcpNetwork
create_network n t =
    if any (λ m. str_eq m.name n.name) t.networks
    then (t, err constraint)
    else let t' = record t { networks = n ∷ t.networks } in (t', ok_or (get_network t' n.id) no_row)

-- The new values of the columns; a relay of `some none` is written as NULL.
pub record Columns : Type 0 where
  pub name : Option Bytes
  pub subnet : Option Bytes
  pub gateway : Option Bytes
  pub dns_servers : Option (List Bytes)
  pub lease_duration : Option ℕ
  pub relay_agent_address : Option (Option Bytes)

abbrev pub unwrap_or : {A : Type 0} → Option A → A → A
unwrap_or none a = a
unwrap_or (some b) a = b

unfoldable pub updated : ℕ → Columns → DhcpNetwork → DhcpNetwork
updated id c n =
    if n.id == id
    then record {
      id = n.id;
      name = unwrap_or c.name n.name;
      subnet = unwrap_or c.subnet n.subnet;
      gateway = unwrap_or c.gateway n.gateway;
      dns_servers = unwrap_or c.dns_servers n.dns_servers;
      lease_duration = unwrap_or c.lease_duration n.lease_duration;
      relay_agent_address = unwrap_or c.relay_agent_address n.relay_agent_address;
    }
    else n

abbrev pub name_clashes : ℕ → Option Bytes → Tables → Bool
name_clashes id none t = false
name_clashes id (some name) t =
    is_some (get_network t id) && any (λ m. not (m.id == id) && str_eq m.name name) t.networks

unfoldable pub update_network : ℕ → Columns → Tables → Tables × Result StoreError DhcpNetwork
update_network id c t =
    if name_clashes id c.name t
    then (t, err constraint)
    else let t' = record t { networks = map (updated id c) t.networks } in
      (t', ok_or (get_network t' id) no_row)

abbrev forget_network : ℕ → Lease → Lease
forget_network id l = if is_network id l.network_id then record l { network_id = none } else l

-- The network's pools and reservations go with it, and its leases lose it.
unfoldable pub delete_network : ℕ → Tables → Tables
delete_network id t = record {
  leases = map (forget_network id) t.leases;
  reservations = filter (λ r. not (r.network_id == id)) t.reservations;
  pools = filter (λ p. not (p.network_id == id)) t.pools;
  networks = filter (λ n. not (n.id == id)) t.networks;
}

abbrev pub has_network : ℕ → Tables → Bool
has_network id t = is_some (get_network t id)

unfoldable pub create_pool : DhcpPool → Tables → Tables × Result StoreError DhcpPool
create_pool p t =
    if has_network p.network_id t
      && not (any (λ q. q.network_id == p.network_id && str_eq q.name p.name) t.pools)
    then (record t { pools = p ∷ t.pools }, ok p)
    else (t, err constraint)

-- One reservation for a device, and one of an address, in a network.
abbrev pub reservation_clashes : StaticReservation → Tables → Bool
reservation_clashes r t =
    any (λ q. q.network_id == r.network_id && str_eq q.mac_address r.mac_address) t.reservations

abbrev pub address_clashes : StaticReservation → Tables → Bool
address_clashes r t =
    any (λ q. q.network_id == r.network_id && str_eq q.ip_address r.ip_address) t.reservations

unfoldable pub create_static_reservation :
    StaticReservation → Tables → Tables × Result StoreError StaticReservation
create_static_reservation r t =
    if has_network r.network_id t && not (reservation_clashes r t) && not (address_clashes r t)
    then (record t { reservations = r ∷ t.reservations }, ok r)
    else (t, err constraint)
