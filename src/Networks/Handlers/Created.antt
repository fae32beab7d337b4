-- ===== src/Networks/Handlers/Created.antt =====
-- http/ui/networks.rs: a network that is created or deleted leaves the networks sound.
use rack_director.Prelude.{
  ℕ, suc, ◌<◌, ◌≡◌, ◌≢◌, refl, sym, ◌∙◌, ap, subst, Bool, true, false, not, Option, none, some, ◌∷◌,
  head_has, tail_has, any, if◌then◌else◌, ◌==◌, str_eq, Result, ok, err, is_some, arith, ok_or,
}
use rack_director.Dhcp.Store.{DhcpNetwork, Tables, filter}
use rack_director.Dhcp.Leases.Holders.{Any-filter}
use rack_director.Networks.Store.{
  StoreError, constraint, no_row, get_network, get_network_by_name, get_network_by_relay_string,
}
use rack_director.Networks.Store
use rack_director.Networks.Validation.{ErrorMap}
use rack_director.Networks.Requests.{
  CreateNetworkRequest, validate_create_network_request, relay_for_check,
}
use rack_director.Networks.Requests.Accepted.{IsAccepted, validate_create-IsAccepted}
use rack_director.Networks.Handlers.{
  AppState, Response, new_row, create_valid, announce, create_network, delete_network, internal,
}
use rack_director.Networks.Handlers.Sound.{
  IsServable, IsSound, Mem, relay_key, by_name-none, by_relay-none,
}

absent : {A : Type 0} (o : Option A) → is_some o ≡ false → o ≡ none
absent none h = refl
absent (some a) h = cc

module _ (next : ℕ) (t : Tables) (s : IsSound next t.networks) where
  later : (a : DhcpNetwork) → Mem a t.networks → a.id < suc next
  later a m = let h = s.below a m in ground arith

  IsSound-suc : IsSound (suc next) t.networks
  IsSound-suc = record {
    each = s.each;
    below = later;
    ids = s.ids;
    names = s.names;
    relays = s.relays;
  }

  module _ (req : CreateNetworkRequest) (accepted : IsAccepted t req) where
    abbrev row : DhcpNetwork
    row = new_row next req

    new_name : (b : DhcpNetwork) → Mem b t.networks → b.name ≢ row.name
    new_name b m =
        by_name-none t req.name b (absent (get_network_by_name t req.name) accepted.new_name) m

    new_relay : (b : DhcpNetwork) → Mem b t.networks → relay_key b ≢ relay_key row
    new_relay b m =
        by_relay-none t req.relay_agent_address b
          (absent (get_network_by_relay_string t (relay_for_check req.relay_agent_address))
            accepted.new_relay)
          m

    row-IsServable : IsServable row
    row-IsServable = record {
      name = accepted.name;
      subnet = accepted.subnet;
      dns_servers = accepted.dns_servers;
      lease_duration = accepted.lease_duration;
      relay = accepted.relay;
    }

    created-each : (a : DhcpNetwork) → Mem a (row ∷ t.networks) → IsServable a
    created-each a (head_has p) = subst IsServable p row-IsServable
    created-each a (tail_has m) = s.each a m

    created-below : (a : DhcpNetwork) → Mem a (row ∷ t.networks) → a.id < suc next
    created-below a (head_has p) =
        let same : next ≡ a.id = ap (λ (n : DhcpNetwork). n.id) p in ground arith
    created-below a (tail_has m) = later a m

    -- Two rows with the same key are the same, if that holds of the old rows and no old row has the
    -- new row's key.
    created-apart :
        {A : Type 0} {C : DhcpNetwork → DhcpNetwork → Type 0} (key : DhcpNetwork → A)
        → C row row
        → ((b : DhcpNetwork) → Mem b t.networks → key b ≢ key row)
        → ((a b : DhcpNetwork) → Mem a t.networks → Mem b t.networks → key a ≡ key b → C a b)
        → (a b : DhcpNetwork) → Mem a (row ∷ t.networks)
        → Mem b (row ∷ t.networks)
        → key a ≡ key b
        → C a b
    created-apart {C = C} key self fresh old a b (head_has p) (head_has q) e =
        subst (λ z. C z b) p (subst (C row) q self)
    created-apart key self fresh old a b (head_has p) (tail_has m) e =
        elim (fresh b m (sym (ap key p ∙ e))) [ ]
    created-apart key self fresh old a b (tail_has m) (head_has q) e =
        elim (fresh a m (e ∙ sym (ap key q))) [ ]
    created-apart key self fresh old a b (tail_has m) (tail_has m') e = old a b m m' e

    new_id : (b : DhcpNetwork) → Mem b t.networks → b.id ≢ next
    new_id b m e = let h = s.below b m in ground arith

    created-IsSound : IsSound (suc next) (row ∷ t.networks)
    created-IsSound = record {
      each = created-each;
      below = created-below;
      ids = created-apart {C = ◌≡◌} (λ n. n.id) refl new_id s.ids;
      names = created-apart {C = λ a b. a.id ≡ b.id} (λ n. n.name) refl new_name s.names;
      relays = created-apart {C = λ a b. a.id ≡ b.id} relay_key refl new_relay s.relays;
    }

announce-tables : (r : Response DhcpNetwork) → (announce r).0.tables ≡ r.0.tables
announce-tables (s, ok n) = refl
announce-tables (s, err e) = refl

pub create_network-IsSound :
    (next : ℕ) (req : CreateNetworkRequest) (s : AppState)
    → IsSound next s.tables.networks
    → IsSound (suc next) (create_network next req s).0.tables.networks
unfolding create_network Store.create_network
create_network-IsSound next req s sound = go (validate_create_network_request s.tables req) refl
  where
    row' : DhcpNetwork
    row' = new_row next req

    stored_if : Bool → Tables × Result StoreError DhcpNetwork
    stored_if clash =
        let t' = record s.tables { networks = row' ∷ s.tables.networks } in
        if clash then (s.tables, err constraint) else (t', ok_or (get_network t' next) no_row)

    fine :
        IsAccepted s.tables req → (clash : Bool) → IsSound (suc next) (stored_if clash).0.networks
    fine accepted true = IsSound-suc next s.tables sound
    fine accepted false = created-IsSound next s.tables sound req accepted

    go :
        (r : Result {0} ErrorMap Unit)
        → validate_create_network_request s.tables req ≡ r
        → IsSound (suc next) (create_valid next req s r).0.tables.networks
    go (err errors) e = IsSound-suc next s.tables sound
    go (ok tt) e =
        let accepted = validate_create-IsAccepted s.tables req e in
        let clash = any (λ m. str_eq m.name row'.name) s.tables.networks in
        subst (λ (t : Tables). IsSound (suc next) t.networks)
          (sym (
            announce-tables
              (record s { tables = (stored_if clash).0 }, internal (stored_if clash).1)))
          (fine accepted clash)

pub delete_network-IsSound :
    (next id : ℕ) (s : AppState)
    → IsSound next s.tables.networks
    → IsSound next (delete_network id s).tables.networks
unfolding delete_network Store.delete_network
delete_network-IsSound next id s sound = record {
  each = λ a m. sound.each a (old a m);
  below = λ a m. sound.below a (old a m);
  ids = λ a b m m'. sound.ids a b (old a m) (old b m');
  names = λ a b m m'. sound.names a b (old a m) (old b m');
  relays = λ a b m m'. sound.relays a b (old a m) (old b m');
}
  where
    old :
        (a : DhcpNetwork)
        → Mem a (filter (λ n. not (n.id == id)) s.tables.networks)
        → Mem a s.tables.networks
    old a m = Any-filter (λ n. not (n.id == id)) s.tables.networks m
