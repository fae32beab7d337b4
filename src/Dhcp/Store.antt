-- ===== src/Dhcp/Store.antt =====
-- dhcp/store.rs: the rows of the four tables of the DHCP server, and the statements on them. A table
-- is the list of its rows in the order in which a query lists them; the columns that no operation of
-- the server reads are left out. Times are seconds, and `now` is the clock's reading.
use rack_director.Prelude.{
  ℕ, ◌+◌, Bool, false, ◌&&◌, not, Option, none, some, List, [], ◌∷◌, Bytes, str_eq, ◌==◌, ltb,
  if◌then◌else◌, find, map, is_none,
}
use rack_director.Dhcp.Ipv4.{format_ipv4}

pub data LeaseState : Type 0 where
  offered active expired released : LeaseState

pub record Lease : Type 0 where
  pub mac_address : Bytes
  pub ip_address : Bytes
  pub device_uuid : Option ℕ
  pub lease_start : ℕ
  pub lease_end : ℕ
  pub state : LeaseState
  pub network_id : Option ℕ

pub record DhcpNetwork : Type 0 where
  pub id : ℕ
  pub name : Bytes
  pub subnet : Bytes
  pub gateway : Bytes
  pub dns_servers : List Bytes
  pub lease_duration : ℕ
  pub relay_agent_address : Option Bytes

pub record DhcpPool : Type 0 where
  pub network_id : ℕ
  pub name : Bytes
  pub range_start : Bytes
  pub range_end : Bytes

pub record StaticReservation : Type 0 where
  pub network_id : ℕ
  pub mac_address : Bytes
  pub ip_address : Bytes

pub record Tables : Type 0 where
  pub leases : List Lease
  pub reservations : List StaticReservation
  pub pools : List DhcpPool
  pub networks : List DhcpNetwork

abbrev pub filter : {A : Type 0} → (A → Bool) → List A → List A
filter test [] = []
filter test (x ∷ xs) = let rest = filter test xs in if test x then x ∷ rest else rest

abbrev pub is_network : ℕ → Option ℕ → Bool
is_network network_id none = false
is_network network_id (some n) = n == network_id

unfoldable pub is_expired : ℕ → Lease → Bool
is_expired now l = ltb l.lease_end now

abbrev pub has_mac : Bytes → Lease → Bool
has_mac mac l = str_eq l.mac_address mac

unfoldable pub get_lease_by_mac : Tables → Bytes → Option Lease
get_lease_by_mac t mac = find (has_mac mac) t.leases

-- `ON CONFLICT(mac_address) DO UPDATE`: the row of the device is replaced, if there is one.
unfoldable pub upsert_lease : Lease → List Lease → List Lease
upsert_lease l [] = l ∷ []
upsert_lease l (x ∷ xs) = if has_mac l.mac_address x then l ∷ xs else x ∷ upsert_lease l xs

unfoldable pub create_or_update_lease_with_network :
    Bytes → ℕ → Option ℕ → LeaseState → ℕ → ℕ → ℕ → Tables → Tables
create_or_update_lease_with_network mac ip device_uuid state lease_duration network_id now t =
    record t {
      leases =
          upsert_lease
            (record {
              mac_address = mac;
              ip_address = format_ipv4 ip;
              device_uuid = device_uuid;
              lease_start = now;
              lease_end = now + lease_duration;
              state = state;
              network_id = some network_id;
            })
            t.leases;
    }

-- `UPDATE dhcp_leases SET state = ?1 … WHERE mac_address = ?3`.
abbrev pub set_state : Bytes → LeaseState → Lease → Lease
set_state mac state l = if has_mac mac l then record l { state = state } else l

unfoldable pub activate_lease : Bytes → Tables → Tables
activate_lease mac t = record t { leases = map (set_state mac active) t.leases }

unfoldable pub release_lease : Bytes → Tables → Tables
release_lease mac t = record t { leases = map (set_state mac released) t.leases }

unfoldable pub delete_expired_leases : ℕ → Tables → Tables
delete_expired_leases now t = record t { leases = filter (λ l. not (is_expired now l)) t.leases }

abbrev pub is_text : Option Bytes → Bytes → Bool
is_text none s = false
is_text (some r) s = str_eq r s

unfoldable pub get_network_by_relay : Tables → ℕ → Option DhcpNetwork
get_network_by_relay t relay =
    find (λ n. is_text n.relay_agent_address (format_ipv4 relay)) t.networks

unfoldable pub get_l2_networks : Tables → List DhcpNetwork
get_l2_networks t = filter (λ n. is_none n.relay_agent_address) t.networks

unfoldable pub list_pools_for_network : Tables → ℕ → List DhcpPool
list_pools_for_network t network_id = filter (λ p. p.network_id == network_id) t.pools

unfoldable pub get_static_reservation : Tables → ℕ → Bytes → Option StaticReservation
get_static_reservation t network_id mac =
    find (λ r. r.network_id == network_id && str_eq r.mac_address mac) t.reservations
