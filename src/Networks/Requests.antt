-- ===== src/Networks/Requests.antt =====
-- http/ui/validation.rs: the checks of a request that creates or changes a network. A lookup in the
-- database that fails is not modelled.
pub mod Accepted
pub mod Changed
use rack_director.Prelude.{
  ℕ, Bool, false, not, ◌||◌, Option, none, some, List, [], Bytes, codes, ◌==◌, if◌then◌else◌,
  Result, ok, err, is_empty, is_some, is_none,
}
use rack_director.Dhcp.Subnet.{Ipv4Subnet}
use rack_director.Dhcp.Store.{Tables, DhcpNetwork}
use rack_director.Networks.Store.{
  get_network, get_network_by_name, get_network_by_relay_string, unwrap_or,
}
use rack_director.Networks.Validation.{
  ErrorMap, add_error, add_if_err, into_result, validate_required, validate_string_length,
  validate_ipv4_address, validate_cidr_subnet, validate_ip_in_subnet, validate_ipv4_list,
  validate_u32_range,
}

pub record CreateNetworkRequest : Type 0 where
  pub name : Bytes
  pub subnet : Bytes
  pub gateway : Bytes
  pub dns_servers : List Bytes
  pub lease_duration : ℕ
  pub relay_agent_address : Option Bytes

pub record UpdateNetworkRequest : Type 0 where
  pub name : Option Bytes
  pub subnet : Option Bytes
  pub gateway : Option Bytes
  pub dns_servers : Option (List Bytes)
  pub lease_duration : Option ℕ
  pub relay_agent_address : Option Bytes

abbrev pub one_year_seconds : ℕ
one_year_seconds = 31536000

unfoldable pub check_name : Bytes → ErrorMap → ErrorMap
check_name name errors =
    add_if_err (codes "name") (validate_string_length name 255 (codes "Network name"))
      (add_if_err (codes "name") (validate_required name (codes "Network name")) errors)

unfoldable pub check_name_taken : Bool → ErrorMap → ErrorMap
check_name_taken taken errors =
    if taken
    then add_error (codes "name") (codes "A network with this name already exists") errors
    else errors

-- The gateway is only looked at when the subnet is valid.
unfoldable pub check_gateway : Bytes → Result Bytes Ipv4Subnet → ErrorMap → ErrorMap
check_gateway gateway (err e) errors = add_if_err (codes "subnet") (some e) errors
check_gateway gateway (ok subnet) errors =
    add_if_err (codes "gateway") (validate_ip_in_subnet gateway subnet)
      (add_if_err (codes "gateway") (validate_ipv4_address gateway) errors)

unfoldable pub check_subnet : Bytes → Bytes → ErrorMap → ErrorMap
check_subnet subnet gateway errors = check_gateway gateway (validate_cidr_subnet subnet) errors

unfoldable pub check_dns_servers : List Bytes → ErrorMap → ErrorMap
check_dns_servers dns_servers errors =
    add_if_err (codes "dns_servers") (validate_ipv4_list dns_servers (codes "DNS server") 1) errors

unfoldable pub check_lease_duration : ℕ → ErrorMap → ErrorMap
check_lease_duration lease_duration errors =
    add_if_err (codes "lease_duration")
      (validate_u32_range lease_duration 1 one_year_seconds (codes "Lease duration")) errors

unfoldable pub check_relay : Bytes → ErrorMap → ErrorMap
check_relay relay errors =
    if is_empty relay
    then errors
    else add_if_err (codes "relay_agent_address") (validate_ipv4_address relay) errors

-- An empty text stands for no relay agent.
abbrev pub relay_for_check : Option Bytes → Option Bytes
relay_for_check none = none
relay_for_check (some r) = if is_empty r then none else some r

unfoldable pub check_relay_taken : Bool → Option Bytes → ErrorMap → ErrorMap
check_relay_taken taken relay errors =
    if not taken
    then errors
    else if is_none relay
    then add_error (codes "relay_agent_address")
        (codes
          "A network without a relay agent already exists. Only one local L2 network is allowed.")
        errors
    else add_error (codes "relay_agent_address")
        (codes "A network with this relay agent address already exists") errors

abbrev pub check_relay_format : Option Bytes → ErrorMap → ErrorMap
check_relay_format none errors = errors
check_relay_format (some r) errors = check_relay r errors

unfoldable pub create_errors : Tables → CreateNetworkRequest → ErrorMap
create_errors t req =
    let relay = relay_for_check req.relay_agent_address in
    check_relay_taken (is_some (get_network_by_relay_string t relay)) relay (
      check_relay_format req.relay_agent_address (
        check_lease_duration req.lease_duration (
          check_dns_servers req.dns_servers (
            check_subnet req.subnet req.gateway (
              check_name_taken (is_some (get_network_by_name t req.name))
                (check_name req.name []))))))

unfoldable pub validate_create_network_request :
    Tables → CreateNetworkRequest → Result {0} ErrorMap Unit
validate_create_network_request t req = into_result (create_errors t req)

-- A network other than the one that is changed.
abbrev pub is_other : ℕ → Option DhcpNetwork → Bool
is_other id none = false
is_other id (some n) = not (n.id == id)

abbrev pub update_name : Tables → ℕ → Option Bytes → ErrorMap → ErrorMap
update_name t id none errors = errors
update_name t id (some name) errors =
    check_name_taken (is_other id (get_network_by_name t name)) (check_name name errors)

abbrev pub update_dns_servers : Option (List Bytes) → ErrorMap → ErrorMap
update_dns_servers none errors = errors
update_dns_servers (some dns_servers) errors = check_dns_servers dns_servers errors

abbrev pub update_lease_duration : Option ℕ → ErrorMap → ErrorMap
update_lease_duration none errors = errors
update_lease_duration (some lease_duration) errors = check_lease_duration lease_duration errors

abbrev pub update_relay : Tables → ℕ → Option Bytes → ErrorMap → ErrorMap
update_relay t id none errors = errors
update_relay t id (some r) errors =
    let relay = if is_empty r then none else some r in
    check_relay_taken (is_other id (get_network_by_relay_string t relay)) relay
      (check_relay r errors)

unfoldable pub update_rest : Tables → ℕ → UpdateNetworkRequest → ErrorMap → ErrorMap
update_rest t id req errors =
    update_relay t id req.relay_agent_address
      (update_lease_duration req.lease_duration (update_dns_servers req.dns_servers errors))

-- The missing value is the network's own; without the network, the check stops.
unfoldable pub update_subnet :
    Tables → ℕ → UpdateNetworkRequest → Option DhcpNetwork → ErrorMap → ErrorMap
update_subnet t id req none errors = errors
update_subnet t id req (some current) errors = update_rest t id req (
    check_subnet (unwrap_or req.subnet current.subnet) (unwrap_or req.gateway current.gateway)
      errors)

unfoldable pub update_errors : Tables → ℕ → UpdateNetworkRequest → ErrorMap
update_errors t id req =
    let errors = update_name t id req.name [] in
    if is_some req.subnet || is_some req.gateway
    then update_subnet t id req (get_network t id) errors
    else update_rest t id req errors

unfoldable pub validate_update_network_request :
    Tables → ℕ → UpdateNetworkRequest → Result {0} ErrorMap Unit
validate_update_network_request t id req = into_result (update_errors t id req)
