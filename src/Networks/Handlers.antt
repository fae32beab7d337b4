-- ===== src/Networks/Handlers.antt =====
-- http/ui/networks.rs: the handlers that set up networks, pools and reservations. The socket manager
-- is told of networks that come and go; a response's status is left out.
pub mod Kept
pub mod Reserved
pub mod Runs
pub mod Created
pub mod Sound
pub mod Updates
use rack_director.Prelude.{
  ℕ, Bool, true, false, Option, none, some, List, [], ◌∷◌, ◌++◌, Bytes, codes, is_empty,
  if◌then◌else◌, Result, ok, err, ok_or, ◌>>=◌, find,
}
use rack_director.Tftp.Decimal.{to_string}
use rack_director.Dhcp.Ipv4.{parse_ipv4}
use rack_director.Dhcp.Subnet.{Ipv4Subnet, Ipv4SubnetError, parse_subnet, ip_in_range}
use rack_director.Dhcp.Store.{Tables, DhcpNetwork, DhcpPool, StaticReservation, Lease}
use rack_director.Networks.Store.{StoreError, Columns, get_network, unwrap_or}
use rack_director.Networks.Store
use rack_director.Networks.Validation.{ErrorMap}
use rack_director.Networks.Requests.{
  CreateNetworkRequest, UpdateNetworkRequest, validate_create_network_request,
  validate_update_network_request,
}

pub data HttpError : Type 0 where
  bad_request : Bytes → HttpError
  validation_error : ErrorMap → HttpError
  not_found : Bytes → HttpError
  unprocessable_entity : Bytes → HttpError
  server_internal_error : HttpError

-- What the socket manager is told.
pub data Notice : Type 0 where
  network_created : ℕ → Bytes → Notice
  network_deleted : ℕ → Notice

pub record AppState : Type 0 where
  pub tables : Tables
  pub notices : List Notice

abbrev pub Response : Type 0 → Type 0
Response A = AppState × Result HttpError A

abbrev pub internal : {E A : Type 0} → Result E A → Result HttpError A
internal (ok a) = ok a
internal (err e) = err server_internal_error

abbrev notify : Notice → AppState → AppState
notify n s = record s { notices = s.notices ++ n ∷ [] }

abbrev pub stored : {A : Type 0} → AppState → Tables × Result StoreError A → Response A
stored s (t, r) = (record s { tables = t }, internal r)

abbrev pub new_row : ℕ → CreateNetworkRequest → DhcpNetwork
new_row id req = record {
  id = id;
  name = req.name;
  subnet = req.subnet;
  gateway = req.gateway;
  dns_servers = req.dns_servers;
  lease_duration = req.lease_duration;
  relay_agent_address = req.relay_agent_address;
}

-- The socket manager is told of the network that was stored.
abbrev pub announce : Response DhcpNetwork → Response DhcpNetwork
announce (s, ok n) = (notify (network_created n.id n.subnet) s, ok n)
announce (s, err e) = (s, err e)

-- `id` is the id that the database gives the row.
abbrev pub create_valid :
    ℕ → CreateNetworkRequest → AppState → Result {0} ErrorMap Unit → Response DhcpNetwork
create_valid id req s (err errors) = (s, err (validation_error errors))
create_valid id req s (ok _) = announce (stored s (Store.create_network (new_row id req) s.tables))

unfoldable pub create_network : ℕ → CreateNetworkRequest → AppState → Response DhcpNetwork
create_network id req s = create_valid id req s (validate_create_network_request s.tables req)

abbrev pub relay_column : Option Bytes → Option (Option Bytes)
relay_column none = none
relay_column (some r) = some (if is_empty r then none else some r)

abbrev pub columns : UpdateNetworkRequest → Columns
columns req = record {
  name = req.name;
  subnet = req.subnet;
  gateway = req.gateway;
  dns_servers = req.dns_servers;
  lease_duration = req.lease_duration;
  relay_agent_address = relay_column req.relay_agent_address;
}

abbrev pub update_valid :
    ℕ → UpdateNetworkRequest → AppState → Result {0} ErrorMap Unit → Response DhcpNetwork
update_valid id req s (err errors) = (s, err (validation_error errors))
update_valid id req s (ok _) = stored s (Store.update_network id (columns req) s.tables)

unfoldable pub update_network : ℕ → UpdateNetworkRequest → AppState → Response DhcpNetwork
update_network id req s = update_valid id req s (validate_update_network_request s.tables id req)

unfoldable pub delete_network : ℕ → AppState → AppState
delete_network id s =
    notify (network_deleted id) (record s { tables = Store.delete_network id s.tables })

unfoldable pub create_pool : DhcpPool → AppState → Response DhcpPool
create_pool p s = stored s (Store.create_pool p s.tables)

-- Whether the address lies in the network's subnet.
unfoldable pub within_network : DhcpNetwork → Bytes → Result HttpError Bool
within_network network ip_address = do
  subnet ← internal (parse_subnet network.subnet)
  ip ← ok_or (parse_ipv4 ip_address) server_internal_error
  ok (ip_in_range subnet ip)

abbrev pub reserve :
    StaticReservation → AppState → Result HttpError Bool → Response StaticReservation
reserve r s (err e) = (s, err e)
reserve r s (ok inside) =
    if inside
    then stored s (Store.create_static_reservation r s.tables)
    else (s, err (bad_request (codes "ip address not within network")))

abbrev pub check_network : StaticReservation → Option DhcpNetwork → Result HttpError Bool
check_network r none = err server_internal_error
check_network r (some network) = within_network network r.ip_address

unfoldable pub create_static_reservation : StaticReservation → AppState → Response StaticReservation
create_static_reservation r s = reserve r s (check_network r (get_network s.tables r.network_id))

-- `lease` is the lease that has the id `lease_id`.
unfoldable pub make_lease_static :
    ℕ → Option Lease → Option Bytes → AppState → Response StaticReservation
unfolding create_static_reservation
make_lease_static lease_id none ip_address s =
    (s, err (not_found (codes "Lease " ++ to_string lease_id ++ codes " not found")))
make_lease_static lease_id (some lease) ip_address s = elim lease.network_id [
  | none ↦ (s, err (bad_request (codes "Lease has no associated network")))
  | some network_id ↦
      create_static_reservation
        (record {
          network_id = network_id;
          mac_address = lease.mac_address;
          ip_address = unwrap_or ip_address lease.ip_address;
        })
        s
]
