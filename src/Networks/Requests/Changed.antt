-- ===== src/Networks/Requests/Changed.antt =====
-- http/ui/validation.rs: what a change of a network that is accepted says.
use rack_director.Prelude.{
  ℕ, ◌≡◌, refl, subst, Bool, false, ◌||◌, Option, none, some, List, [], Bytes, if◌then◌else◌, ok,
  is_some,
}
use rack_director.Dhcp.Store.{Tables, DhcpNetwork}
use rack_director.Networks.Store.{
  get_network, get_network_by_name, get_network_by_relay_string, unwrap_or,
}
use rack_director.Networks.Validation.{ErrorMap}
use rack_director.Networks.Validation.Accepted.{into_result-nil}
use rack_director.Networks.Requests.{
  UpdateNetworkRequest, relay_for_check, is_other, update_name, update_dns_servers,
  update_lease_duration, update_relay, update_rest, update_subnet, update_errors,
  validate_update_network_request,
}
use rack_director.Networks.Requests.Accepted.{
  IsName, Fits, AreServers, IsDuration, IsRelay, check_name-nil, check_name_taken-nil,
  check_subnet-nil, check_dns_servers-nil, check_lease_duration-nil, check_relay-nil,
  check_relay_taken-nil,
}

-- What holds of the value, if there is one.
abbrev pub Given : {A : Type 0} → (A → Type 0) → Option A → Type 0
Given P none = Unit
Given P (some a) = P a

-- No other network has the name, or the relay agent.
abbrev pub NameIsFree : Tables → ℕ → Bytes → Type 0
NameIsFree t id name = is_other id (get_network_by_name t name) ≡ false

abbrev pub RelayIsFree : Tables → ℕ → Bytes → Type 0
RelayIsFree t id r = is_other id (get_network_by_relay_string t (relay_for_check (some r))) ≡ false

abbrev Rest : Tables → ℕ → UpdateNetworkRequest → Type 0
Rest t id req =
    Given (λ r. IsRelay (some r) × RelayIsFree t id r) req.relay_agent_address
    × Given IsDuration req.lease_duration
    × Given AreServers req.dns_servers

pub record IsChange (t : Tables) (id : ℕ) (req : UpdateNetworkRequest) (current : DhcpNetwork)
    : Type 0 where
  pub name : Given (λ name. IsName name × NameIsFree t id name) req.name
  pub subnet :
      Fits current.subnet current.gateway
      → Fits (unwrap_or req.subnet current.subnet) (unwrap_or req.gateway current.gateway)
  pub rest : Rest t id req

update_name-nil :
    (t : Tables) (id : ℕ) (o : Option Bytes)
    → update_name t id o [] ≡ []
    → Given (λ name. IsName name × NameIsFree t id name) o
update_name-nil t id none h = tt
update_name-nil t id (some name) h =
    let (free, h1) = check_name_taken-nil _ _ h in
    let (fine, _) = check_name-nil _ _ h1 in (fine, free)

update_relay-nil :
    (t : Tables) (id : ℕ) (o : Option Bytes) (errors : ErrorMap)
    → update_relay t id o errors ≡ []
    → Given (λ r. IsRelay (some r) × RelayIsFree t id r) o × (errors ≡ [])
update_relay-nil t id none errors h = (tt, h)
update_relay-nil t id (some r) errors h =
    let (free, h1) = check_relay_taken-nil _ _ _ h in
    let (fine, h2) = check_relay-nil _ _ h1 in ((fine, free), h2)

update_lease_duration-nil :
    (o : Option ℕ) (errors : ErrorMap)
    → update_lease_duration o errors ≡ []
    → Given IsDuration o × (errors ≡ [])
update_lease_duration-nil none errors h = (tt, h)
update_lease_duration-nil (some n) errors h = check_lease_duration-nil n errors h

update_servers-nil :
    (o : Option (List Bytes)) (errors : ErrorMap)
    → update_dns_servers o errors ≡ []
    → Given AreServers o × (errors ≡ [])
update_servers-nil none errors h = (tt, h)
update_servers-nil (some ips) errors h = check_dns_servers-nil ips errors h

update_rest-nil :
    (t : Tables) (id : ℕ) (req : UpdateNetworkRequest) (errors : ErrorMap)
    → update_rest t id req errors ≡ []
    → Rest t id req × (errors ≡ [])
unfolding update_rest
update_rest-nil t id req errors h =
    let (relay, h1) = update_relay-nil t id _ _ h in
    let (duration, h2) = update_lease_duration-nil _ _ h1 in
    let (servers, h3) = update_servers-nil _ _ h2 in ((relay, duration, servers), h3)

module _ (t : Tables) (id : ℕ) (req : UpdateNetworkRequest) (current : DhcpNetwork) where
  without_subnet :
      req.subnet ≡ none
      → req.gateway ≡ none
      → update_rest t id req (update_name t id req.name []) ≡ []
      → IsChange t id req current
  without_subnet e e' h =
      let (rest, h1) = update_rest-nil t id req _ h in
      record {
        name = update_name-nil t id req.name h1;
        subnet = λ fits. rw (e, e') fits;
        rest = rest;
      }

  with_subnet :
      update_subnet t id req (some current) (update_name t id req.name []) ≡ []
      → IsChange t id req current
  unfolding update_subnet
  with_subnet h =
      let (rest, h1) = update_rest-nil t id req _ h in
      let (fits, h2) = check_subnet-nil _ _ _ h1 in
      record { name = update_name-nil t id req.name h2; subnet = λ _. fits; rest = rest }

  pub validate_update-IsChange :
      get_network t id ≡ some current
      → validate_update_network_request t id req ≡ ok tt
      → IsChange t id req current
  unfolding validate_update_network_request update_errors
  validate_update-IsChange found h =
      go req.subnet req.gateway refl refl (into_result-nil (update_errors t id req) h)
    where
      errors : Bool → ErrorMap
      errors b =
          if b
          then update_subnet t id req (get_network t id) (update_name t id req.name [])
          else update_rest t id req (update_name t id req.name [])

      known :
          update_subnet t id req (get_network t id) (update_name t id req.name []) ≡ []
          → IsChange t id req current
      known k =
          with_subnet
            (subst (λ o. update_subnet t id req o (update_name t id req.name []) ≡ []) found k)

      go :
          (s g : Option Bytes)
          → req.subnet ≡ s
          → req.gateway ≡ g
          → errors (is_some s || is_some g) ≡ []
          → IsChange t id req current
      go none none e e' k = without_subnet e e' k
      go none (some g) e e' k = known k
      go (some s) g e e' k = known k
