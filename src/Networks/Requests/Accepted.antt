-- ===== src/Networks/Requests/Accepted.antt =====
-- http/ui/validation.rs: what a request that is accepted says.
use rack_director.Prelude.{
  ℕ, ◌≤◌, ◌≡◌, ◌⊎◌, inl, inr, refl, Bool, true, false, Option, none, some, List, [], Bytes, All,
  if◌then◌else◌, Result, ok, err, length, is_empty, is_some, codes,
}
use rack_director.Dhcp.Ipv4.{parse_ipv4}
use rack_director.Dhcp.Subnet.{Ipv4Subnet, parse_subnet, ip_in_range}
use rack_director.Dhcp.Store.{Tables}
use rack_director.Networks.Store.{get_network_by_name, get_network_by_relay_string}
use rack_director.Networks.Validation.{
  ErrorMap, add_error, add_if_err, validate_cidr_subnet, validate_ipv4_address,
}
use rack_director.Networks.Validation.Accepted.{
  IsAddress, into_result-nil, insert-nonempty, add_if_err-nil, required_lem, string_length_lem,
  ip_in_subnet_lem, ipv4_list_lem, cidr_subnet_lem, u32_range_lem,
}
use rack_director.Networks.Requests.{
  CreateNetworkRequest, one_year_seconds, check_name, check_name_taken, check_gateway, check_subnet,
  check_dns_servers, check_lease_duration, check_relay, check_relay_format, relay_for_check,
  check_relay_taken, create_errors, validate_create_network_request,
}

abbrev pub IsName : Bytes → Type 0
IsName name = (is_empty name ≡ false) × (length name ≤ 255)

-- The gateway is an address of the subnet.
abbrev pub Fits : Bytes → Bytes → Type 0
Fits subnet gateway =
    (s : Ipv4Subnet) × (g : ℕ) × (parse_subnet subnet ≡ ok s)
    × (parse_ipv4 gateway ≡ some g)
    × (ip_in_range s g ≡ true)

abbrev pub AreServers : List Bytes → Type 0
AreServers ips = (1 ≤ length ips) × All IsAddress ips

abbrev pub IsDuration : ℕ → Type 0
IsDuration n = (1 ≤ n) × (n ≤ one_year_seconds)

abbrev pub IsRelay : Option Bytes → Type 0
IsRelay none = Unit
IsRelay (some r) = (is_empty r ≡ true) ⊎ IsAddress r

pub check_name-nil :
    (name : Bytes) (errors : ErrorMap) → check_name name errors ≡ [] → IsName name × (errors ≡ [])
unfolding check_name
check_name-nil name errors h =
    let (short, h1) = add_if_err-nil _ _ _ h in
    let (given, h2) = add_if_err-nil _ _ _ h1 in
    ((required_lem name _ given, string_length_lem name 255 _ short), h2)

pub check_name_taken-nil :
    (taken : Bool) (errors : ErrorMap)
    → check_name_taken taken errors ≡ []
    → (taken ≡ false) × (errors ≡ [])
unfolding check_name_taken add_error
check_name_taken-nil true errors h = elim (insert-nonempty _ _ errors h) [ ]
check_name_taken-nil false errors h = (refl, h)

pub check_subnet-nil :
    (subnet gateway : Bytes) (errors : ErrorMap)
    → check_subnet subnet gateway errors ≡ []
    → Fits subnet gateway × (errors ≡ [])
unfolding check_subnet check_gateway
check_subnet-nil subnet gateway errors h = go (validate_cidr_subnet subnet) refl h
  where
    go :
        (r : Result Bytes Ipv4Subnet)
        → validate_cidr_subnet subnet ≡ r
        → check_gateway gateway r errors ≡ []
        → Fits subnet gateway × (errors ≡ [])
    go (err e) p h = let (absurd, _) = add_if_err-nil _ _ _ h in cc
    go (ok s) p h =
        let (inside, h1) = add_if_err-nil _ _ _ h in
        let (_, h2) = add_if_err-nil _ _ _ h1 in
        let (g, parsed, in_range) = ip_in_subnet_lem gateway s inside in
        ((s, g, cidr_subnet_lem subnet s p, parsed, in_range), h2)

pub check_dns_servers-nil :
    (ips : List Bytes) (errors : ErrorMap)
    → check_dns_servers ips errors ≡ []
    → AreServers ips × (errors ≡ [])
unfolding check_dns_servers
check_dns_servers-nil ips errors h =
    let (fine, rest) = add_if_err-nil _ _ _ h in (ipv4_list_lem ips _ 1 fine, rest)

pub check_lease_duration-nil :
    (n : ℕ) (errors : ErrorMap) → check_lease_duration n errors ≡ [] → IsDuration n × (errors ≡ [])
unfolding check_lease_duration
check_lease_duration-nil n errors h =
    let (fine, rest) = add_if_err-nil _ _ _ h in (u32_range_lem n 1 one_year_seconds _ fine, rest)

address_lem : (ip : Bytes) → validate_ipv4_address ip ≡ none → IsAddress ip
unfolding validate_ipv4_address
address_lem ip h = go (parse_ipv4 ip) _ h
  where
    go :
        (p : Option ℕ) (m : Bytes)
        → elim p [ some _ ↦ none | none ↦ some m ] ≡ none
        → is_some p ≡ true
    go none m h = cc
    go (some a) m h = refl

pub check_relay-nil :
    (r : Bytes) (errors : ErrorMap) → check_relay r errors ≡ [] → IsRelay (some r) × (errors ≡ [])
unfolding check_relay
check_relay-nil r errors h = go (is_empty r) refl h
  where
    go :
        (b : Bool)
        → is_empty r ≡ b
        → (if b
            then errors
            else add_if_err (codes "relay_agent_address") (validate_ipv4_address r) errors)
          ≡ []
        → IsRelay (some r) × (errors ≡ [])
    go true e h = (inl e, h)
    go false e h = let (fine, rest) = add_if_err-nil _ _ _ h in (inr (address_lem r fine), rest)

pub check_relay_taken-nil :
    (taken : Bool) (relay : Option Bytes) (errors : ErrorMap)
    → check_relay_taken taken relay errors ≡ []
    → (taken ≡ false) × (errors ≡ [])
unfolding check_relay_taken add_error
check_relay_taken-nil true none errors h = elim (insert-nonempty _ _ errors h) [ ]
check_relay_taken-nil true (some r) errors h = elim (insert-nonempty _ _ errors h) [ ]
check_relay_taken-nil false relay errors h = (refl, h)

check_relay_format-nil :
    (o : Option Bytes) (errors : ErrorMap)
    → check_relay_format o errors ≡ []
    → IsRelay o × (errors ≡ [])
check_relay_format-nil none errors h = (tt, h)
check_relay_format-nil (some r) errors h = check_relay-nil r errors h

pub record IsAccepted (t : Tables) (req : CreateNetworkRequest) : Type 0 where
  pub name : IsName req.name
  pub new_name : is_some (get_network_by_name t req.name) ≡ false
  pub subnet : Fits req.subnet req.gateway
  pub dns_servers : AreServers req.dns_servers
  pub lease_duration : IsDuration req.lease_duration
  pub relay : IsRelay req.relay_agent_address
  pub new_relay :
      is_some (get_network_by_relay_string t (relay_for_check req.relay_agent_address)) ≡ false

pub validate_create-IsAccepted :
    (t : Tables) (req : CreateNetworkRequest)
    → validate_create_network_request t req ≡ ok tt
    → IsAccepted t req
unfolding validate_create_network_request create_errors
validate_create-IsAccepted t req h =
    let (new_relay, h1) = check_relay_taken-nil _ _ _ (into_result-nil (create_errors t req) h) in
    let (relay, h2) = check_relay_format-nil _ _ h1 in
    let (duration, h3) = check_lease_duration-nil _ _ h2 in
    let (servers, h4) = check_dns_servers-nil _ _ h3 in
    let (subnet, h5) = check_subnet-nil _ _ _ h4 in
    let (new_name, h6) = check_name_taken-nil _ _ h5 in
    let (name, _) = check_name-nil _ _ h6 in
    record {
      name = name;
      new_name = new_name;
      subnet = subnet;
      dns_servers = servers;
      lease_duration = duration;
      relay = relay;
      new_relay = new_relay;
    }
