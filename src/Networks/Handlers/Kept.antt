-- ===== src/Networks/Handlers/Kept.antt =====
-- http/ui/networks.rs: every handler of a network keeps the networks sound.
use rack_director.Prelude.{
  ℕ, ◌≡◌, inl, inr, refl, sym, ◌∙◌, ap, subst, Bool, true, false, Option, none, some, [], ◌∷◌,
  Bytes, map, if◌then◌else◌, ok_or, Result, ok, err,
}
use rack_director.Dhcp.Store.{DhcpNetwork, Tables}
use rack_director.Networks.Store.{
  StoreError, no_row, constraint, Columns, updated, unwrap_or, name_clashes, get_network,
  get_network_by_name, get_network_by_relay_string,
}
use rack_director.Networks.Store
use rack_director.Networks.Validation.{ErrorMap}
use rack_director.Networks.Requests.{UpdateNetworkRequest, validate_update_network_request}
use rack_director.Networks.Requests.Accepted.{IsName, AreServers, IsDuration, IsRelay}
use rack_director.Networks.Requests.Changed.{Given, IsChange, validate_update-IsChange}
use rack_director.Networks.Handlers.{AppState, update_valid, columns, relay_column, update_network}
use rack_director.Networks.Handlers.Sound.{IsServable, IsSound, Mem, relay_key}
use rack_director.Networks.Handlers.Updates.{
  IsSound-map, changed, updated-cases, given_or, found, name_apart, relay_apart,
}

IsRelay-given :
    (o : Option Bytes) (a : Option Bytes) (P : Bytes → Type 0)
    → Given (λ r. IsRelay (some r) × P r) o
    → IsRelay a
    → IsRelay (unwrap_or (relay_column o) a)
IsRelay-given none a P g p = p
IsRelay-given (some []) a P g p = tt
IsRelay-given (some (x ∷ xs)) a P (g, _) p = g

module _ (next : ℕ) (t : Tables) (s : IsSound next t.networks) (id : ℕ) (req : UpdateNetworkRequest)
    (valid : validate_update_network_request t id req ≡ ok tt) where
  abbrev f : DhcpNetwork → DhcpNetwork
  f = updated id (columns req)

  change : (x : DhcpNetwork) → Mem x t.networks → x.id ≡ id → IsChange t id req x
  change x m e = validate_update-IsChange t id req x (found next t s id req x m e) valid

  name_given :
      (P : Bytes → Type 0) (o : Option Bytes) → Given (λ n. IsName n × P n) o → Given IsName o
  name_given P none g = tt
  name_given P (some n) (g, _) = g

  changed-IsServable :
      (x : DhcpNetwork) → Mem x t.networks → x.id ≡ id → IsServable (changed (columns req) x)
  changed-IsServable x m e =
      let c = change x m e in
      let old = s.each x m in
      let (relay, duration, servers) = c.rest in
      record {
        name = given_or IsName req.name x.name (name_given _ req.name c.name) old.name;
        subnet = c.subnet old.subnet;
        dns_servers = given_or AreServers req.dns_servers x.dns_servers servers old.dns_servers;
        lease_duration =
            given_or IsDuration req.lease_duration x.lease_duration duration old.lease_duration;
        relay = IsRelay-given req.relay_agent_address x.relay_agent_address _ relay old.relay;
      }

  abbrev Apart : {A : Type 0} → (DhcpNetwork → A) → (DhcpNetwork → DhcpNetwork) → Type 0
  Apart key g =
      (x y : DhcpNetwork)
      → Mem x t.networks
      → Mem y t.networks
      → key (g x) ≡ key (g y)
      → x.id ≡ y.id

  -- Two rows with the same key are the same row, if that holds of two old rows and of a changed row
  -- and an old one.
  changed-Apart :
      {A : Type 0} (key : DhcpNetwork → A)
      → Apart key (λ x. x)
      → ((x y : DhcpNetwork)
          → x.id ≡ id
          → Mem x t.networks
          → Mem y t.networks
          → key (changed (columns req) x) ≡ key y
          → x.id ≡ y.id)
      → Apart key f
  changed-Apart key old apart x y mx my same = elim (updated-cases id (columns req) x) [
    | inl (e, p) ↦ elim (updated-cases id (columns req) y) [
      | inl (e', q) ↦ e ∙ sym e'
      | inr q ↦ apart x y e mx my (sym (ap key p) ∙ same ∙ ap key q)
    ]
    | inr p ↦ elim (updated-cases id (columns req) y) [
      | inl (e', q) ↦ sym (apart y x e' my mx (sym (ap key q) ∙ sym same ∙ ap key p))
      | inr q ↦ old x y mx my (sym (ap key p) ∙ same ∙ ap key q)
    ]
  ]

  updated-IsServable : (x : DhcpNetwork) → Mem x t.networks → IsServable (f x)
  updated-IsServable x m = elim (updated-cases id (columns req) x) [
    | inl (e, p) ↦ subst IsServable (sym p) (changed-IsServable x m e)
    | inr p ↦ subst IsServable (sym p) (s.each x m)
  ]

  updated-id : (x : DhcpNetwork) → (f x).id ≡ x.id
  updated-id x = elim (updated-cases id (columns req) x) [
    | inl (e, p) ↦ ap (λ (n : DhcpNetwork). n.id) p
    | inr p ↦ ap (λ (n : DhcpNetwork). n.id) p
  ]

  updated-IsSound : IsSound next (map f t.networks)
  updated-IsSound =
      IsSound-map next t.networks f s updated-id updated-IsServable
        (changed-Apart (λ n. n.name) s.names
          (λ x y e mx my same.
            name_apart next t s id req x y req.name (change x mx e).name e mx my same))
        (changed-Apart relay_key s.relays (λ x y e mx my same.
          relay_apart next t s id req x y req.relay_agent_address (change x mx e).rest.0 e mx my
            same))

-- A handler leaves the networks sound, on every branch.
pub update_network-IsSound :
    (next id : ℕ) (req : UpdateNetworkRequest) (s : AppState)
    → IsSound next s.tables.networks
    → IsSound next (update_network id req s).0.tables.networks
unfolding update_network Store.update_network
update_network-IsSound next id req s sound =
    go (validate_update_network_request s.tables id req) refl
  where
    stored_if : Bool → Tables × Result StoreError DhcpNetwork
    stored_if clash =
        let t' = record s.tables { networks = map (updated id (columns req)) s.tables.networks } in
        if clash then (s.tables, err constraint) else (t', ok_or (get_network t' id) no_row)

    fine :
        validate_update_network_request s.tables id req ≡ ok tt
        → (clash : Bool) → IsSound next (stored_if clash).0.networks
    fine valid true = sound
    fine valid false = updated-IsSound next s.tables sound id req valid

    go :
        (r : Result {0} ErrorMap Unit)
        → validate_update_network_request s.tables id req ≡ r
        → IsSound next (update_valid id req s r).0.tables.networks
    go (err errors) e = sound
    go (ok tt) e = fine e (name_clashes id req.name s.tables)
