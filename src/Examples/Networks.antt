-- ===== src/Examples/Networks.antt =====
-- Networks that the operator sets up, and the DHCP server on one of them.
use rack_director.Prelude.{
  ◌≤◌, ◌≡◌, refl, subst, sym, false, none, some, List, [], ◌∷◌, Bytes, codes, str_eq, ok, err,
  head_has,
}
use rack_director.Dhcp.Ipv4.{parse_ipv4}
use rack_director.Dhcp.Subnet.{parse_subnet, ip_in_range, network, netmask, split_once}
use rack_director.Tftp.Decimal.{from_str}
use rack_director.Dhcp.Store.{
  DhcpNetwork, StaticReservation, get_lease_by_mac, get_static_reservation, is_expired,
  list_pools_for_network,
}
use rack_director.Dhcp.Store.{active}
use rack_director.Dhcp.Allocator.{
  allocate_for_mac_in_network, allocate_from_pools, try_pools, parse_ip_range, free_in_range,
  is_taken, active_ips, reserved_ips,
}
use rack_director.Dhcp.Request.{from_message, format_mac}
use rack_director.Dhcp.DeviceResolution.{
  resolve, resolve_device, find_device_by_mac, find_device_by_bmc_mac, device_exists,
}
use rack_director.Dhcp.Handler.{handle_discover, allocate}
use rack_director.Networks.Store.{updated, get_network}
use rack_director.Networks.Store
use rack_director.Networks.Validation.{
  insert, add_error, add_if_err, into_result, validate_required, validate_string_length,
  validate_ipv4_address, validate_cidr_subnet, validate_ip_in_subnet, validate_ipv4_list,
  validate_u32_range, first_invalid,
}
use rack_director.Networks.Requests.{
  CreateNetworkRequest, UpdateNetworkRequest, check_name, check_name_taken, check_gateway,
  check_subnet, check_dns_servers, check_lease_duration, check_relay, check_relay_taken,
  create_errors, validate_create_network_request, update_subnet, update_rest, update_errors,
  validate_update_network_request,
}
use rack_director.Networks.Handlers.{
  AppState, create_network, update_network, create_static_reservation, make_lease_static,
  bad_request, within_network,
}
use rack_director.Networks.Handlers.Sound.{Mem}
use rack_director.Networks.Handlers.Reserved.{Stored, create_static_reservation-Stored}
use rack_director.Networks.Handlers.Runs.{
  Request, Site, create, update, serve, serve_all, networks_of, IsSoundSite, Offers,
  serve_all-IsSoundSite, handle_discover-serve_all,
}
use rack_director.Examples.Dhcp.{server, database, discovers, protocol-IsOptionMap}

abbrev empty_site : Site
empty_site = record {
  app = record {
    tables = record { leases = []; reservations = []; pools = []; networks = [] };
    notices = [];
  };
  next_id = 1;
}

empty-IsSoundSite : IsSoundSite empty_site
empty-IsSoundSite = record {
  each = λ a m. elim m [ ];
  below = λ a m. elim m [ ];
  ids = λ a b m m'. elim m [ ];
  names = λ a b m m'. elim m [ ];
  relays = λ a b m m'. elim m [ ];
}

abbrev local : Bytes → CreateNetworkRequest
local name = record {
  name = name;
  subnet = codes "10.0.0.0/24";
  gateway = codes "10.0.0.1";
  dns_servers = codes "10.0.0.9" ∷ [];
  lease_duration = 60;
  relay_agent_address = none;
}

abbrev new_gateway : UpdateNetworkRequest
new_gateway = record {
  name = none;
  subnet = none;
  gateway = some (codes "10.0.0.2");
  dns_servers = none;
  lease_duration = none;
  relay_agent_address = none;
}

-- The second network without a relay agent is refused.
abbrev setup : List Request
setup = create (local (codes "lan")) ∷ create (local (codes "b")) ∷ update 1 new_gateway ∷ []

serve_all-IsSoundSite_example : IsSoundSite (serve_all empty_site setup)
serve_all-IsSoundSite_example = serve_all-IsSoundSite empty_site setup empty-IsSoundSite

abbrev home : DhcpNetwork
home = record {
  id = 1;
  name = codes "lan";
  subnet = codes "10.0.0.0/24";
  gateway = codes "10.0.0.2";
  dns_servers = codes "10.0.0.9" ∷ [];
  lease_duration = 60;
  relay_agent_address = none;
}

only_home : networks_of (serve_all empty_site setup) ≡ home ∷ []
unfolding serve_all serve create_network update_network Store.create_network Store.update_network
    updated get_network Store.get_network_by_name Store.get_network_by_relay_string insert add_error
    add_if_err into_result validate_required validate_string_length validate_ipv4_address
    validate_cidr_subnet validate_ip_in_subnet validate_ipv4_list validate_u32_range first_invalid
    check_name check_name_taken check_gateway check_subnet check_dns_servers check_lease_duration
    check_relay check_relay_taken create_errors validate_create_network_request update_subnet
    update_rest update_errors validate_update_network_request parse_ipv4 parse_subnet split_once
    from_str ip_in_range network netmask str_eq
only_home = refl

home-Mem : Mem home (networks_of (serve_all empty_site setup))
home-Mem = subst (Mem home) (sym only_home) (head_has refl)

enabled :
    (resolve database.devices
      (from_message server.dhcproto discovers).mac
      (from_message server.dhcproto discovers).guid).is_disabled
    ≡ false
unfolding from_message format_mac resolve resolve_device find_device_by_mac find_device_by_bmc_mac
    device_exists str_eq
enabled = refl

third :
    allocate
      (resolve database.devices
        (from_message server.dhcproto discovers).mac
        (from_message server.dhcproto discovers).guid).device_uuid
      database.tables
      (from_message server.dhcproto discovers).mac
      1
      20
    ≡ ok 167772163
unfolding from_message format_mac resolve resolve_device find_device_by_mac find_device_by_bmc_mac
    device_exists is_expired get_lease_by_mac get_static_reservation parse_ipv4 str_eq
    allocate_for_mac_in_network allocate_from_pools list_pools_for_network try_pools parse_ip_range
    free_in_range is_taken active_ips reserved_ips
third = refl

handle_discover-serve_all_example :
    Offers server protocol-IsOptionMap home 167772163
      (handle_discover server discovers home 167772161 20 database)
    × (1 ≤ home.lease_duration)
handle_discover-serve_all_example =
    handle_discover-serve_all server protocol-IsOptionMap empty_site setup home discovers 167772161
      20 167772163 database empty-IsSoundSite home-Mem enabled third

abbrev printer : StaticReservation
printer = record { network_id = 1; mac_address = codes "cc"; ip_address = codes "10.0.0.40" }

abbrev home_site : AppState
home_site = record {
  tables = record { leases = []; reservations = []; pools = []; networks = home ∷ [] };
  notices = [];
}

reserved : (create_static_reservation printer home_site).1 ≡ ok printer
unfolding create_static_reservation Store.create_static_reservation within_network get_network
    parse_ipv4 parse_subnet split_once from_str ip_in_range network netmask str_eq
reserved = refl

create_static_reservation-Stored_example :
    (printer ≡ printer) × Stored home_site printer (create_static_reservation printer home_site)
create_static_reservation-Stored_example =
    create_static_reservation-Stored printer printer home_site reserved

-- A lease of an address outside the network is not made static.
stray_lease :
    (make_lease_static 4
      (some (record {
        mac_address = codes "cc";
        ip_address = codes "10.0.1.40";
        device_uuid = none;
        lease_start = 0;
        lease_end = 9;
        state = active;
        network_id = some 1;
      }))
      none
      home_site).1
    ≡ err (bad_request (codes "ip address not within network"))
unfolding make_lease_static create_static_reservation within_network get_network parse_ipv4
    parse_subnet split_once from_str ip_in_range network netmask
stray_lease = refl
