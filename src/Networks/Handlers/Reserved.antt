-- ===== src/Networks/Handlers/Reserved.antt =====
-- http/ui/networks.rs: a pool or a reservation that is created.
use rack_director.Prelude.{
  ℕ, ◌≡◌, refl, sym, Bool, true, false, not, ◌&&◌, Option, none, some, ◌∷◌, Bytes, str_eq, Result,
  ok, err, ok_or, ok-injective, any, if◌then◌else◌, ◌==◌, >>=-eq-ok, ok_or-eq-ok,
}
use rack_director.Dhcp.Ipv4.{parse_ipv4}
use rack_director.Dhcp.Subnet.{Ipv4Subnet, parse_subnet, ip_in_range}
use rack_director.Dhcp.Store.{DhcpNetwork, DhcpPool, StaticReservation, Tables}
use rack_director.Networks.Store.{
  StoreError, constraint, get_network, has_network, reservation_clashes, address_clashes, unwrap_or,
}
use rack_director.Networks.Store
use rack_director.Networks.Handlers.{
  AppState, Response, HttpError, create_pool, create_static_reservation, reserve, check_network,
  within_network, internal, server_internal_error, stored,
}

pub create_pool-networks :
    (p : DhcpPool) (s : AppState) → (create_pool p s).0.tables.networks ≡ s.tables.networks
unfolding create_pool Store.create_pool
create_pool-networks p s = go (
    has_network p.network_id s.tables
    && not (any (λ q. q.network_id == p.network_id && str_eq q.name p.name) s.tables.pools))
  where
    result : Bool → Tables × Result StoreError DhcpPool
    result b =
        if b
        then (record s.tables { pools = p ∷ s.tables.pools }, ok p)
        else (s.tables, err constraint)

    go : (b : Bool) → (result b).0.networks ≡ s.tables.networks
    go true = refl
    go false = refl

-- The row is added at the head, or nothing is done.
data Insert (r : StaticReservation) (t : Tables)
    : Tables × Result StoreError StaticReservation → Type 0 where
  inserted :
      reservation_clashes r t ≡ false
      → Insert r t (record t { reservations = r ∷ t.reservations }, ok r)
  refused : Insert r t (t, err constraint)

store-Insert :
    (r : StaticReservation) (t : Tables) → Insert r t (Store.create_static_reservation r t)
unfolding Store.create_static_reservation
store-Insert r t =
    go (has_network r.network_id t) (reservation_clashes r t) refl (address_clashes r t)
  where
    go :
        (b c : Bool)
        → reservation_clashes r t ≡ c
        → (d : Bool)
        → Insert r t (
            if b && not c && not d
            then (record t { reservations = r ∷ t.reservations }, ok r)
            else (t, err constraint))
    go false c e d = refused
    go true true e d = refused
    go true false e true = refused
    go true false e false = inserted e

-- The reservation that a reply gives was stored, and its address lies in the subnet of its network.
abbrev pub Stored : AppState → StaticReservation → Response StaticReservation → Type 0
Stored s r response =
    (response.0.tables ≡ record s.tables { reservations = r ∷ s.tables.reservations })
    × (reservation_clashes r s.tables ≡ false)
    × ((n : DhcpNetwork) × (get_network s.tables r.network_id ≡ some n)
        × ((subnet : Ipv4Subnet) × (ip : ℕ) × (parse_subnet n.subnet ≡ ok subnet)
            × (parse_ipv4 r.ip_address ≡ some ip)
            × (ip_in_range subnet ip ≡ true)))

internal-ok : {E A : Type 0} (r : Result E A) (a : A) → internal r ≡ ok a → r ≡ ok a
internal-ok (ok b) a h = cc
internal-ok (err e) a h = cc

within-ok :
    (n : DhcpNetwork) (text : Bytes)
    → within_network n text ≡ ok true
    → (subnet : Ipv4Subnet) × (ip : ℕ) × (parse_subnet n.subnet ≡ ok subnet)
      × (parse_ipv4 text ≡ some ip)
      × (ip_in_range subnet ip ≡ true)
unfolding within_network
within-ok n text h =
    let (subnet, p, h1) = >>=-eq-ok (internal (parse_subnet n.subnet)) _ true h in
    let (ip, q, h2) = >>=-eq-ok (ok_or (parse_ipv4 text) server_internal_error) _ true h1 in
    (
      subnet,
      ip,
      internal-ok (parse_subnet n.subnet) subnet p,
      ok_or-eq-ok (parse_ipv4 text) server_internal_error ip q,
      ok-injective h2,
    )

Insert-ok :
    (s : AppState) (r a : StaticReservation) (result : Tables × Result StoreError StaticReservation)
    → Insert r s.tables result
    → (stored s result).1 ≡ ok a
    → (a ≡ r)
      × ((stored s result).0.tables ≡ record s.tables { reservations = r ∷ s.tables.reservations })
      × (reservation_clashes r s.tables ≡ false)
Insert-ok s r a _ (inserted free) h = (sym (ok-injective h), refl, free)
Insert-ok s r a _ refused h = cc

-- A reply that gives a reservation means that it was asked for and was stored, that the device had
-- none in the network, and that its address lies in the network's subnet.
pub create_static_reservation-Stored :
    (r a : StaticReservation) (s : AppState)
    → (create_static_reservation r s).1 ≡ ok a
    → (a ≡ r) × Stored s r (create_static_reservation r s)
unfolding create_static_reservation
create_static_reservation-Stored r a s h = go (get_network s.tables r.network_id) refl h
  where
    given :
        (n : DhcpNetwork)
        → get_network s.tables r.network_id ≡ some n
        → (w : Result HttpError Bool) → within_network n r.ip_address ≡ w
        → (reserve r s w).1 ≡ ok a
        → (a ≡ r) × Stored s r (reserve r s w)
    given n e (err x) p k = cc
    given n e (ok false) p k = cc
    given n e (ok true) p k =
        let (same, tables, free) = Insert-ok s r a _ (store-Insert r s.tables) k in
        (same, (tables, free, (n, e, within-ok n r.ip_address p)))

    go :
        (o : Option DhcpNetwork)
        → get_network s.tables r.network_id ≡ o
        → (reserve r s (check_network r o)).1 ≡ ok a
        → (a ≡ r) × Stored s r (reserve r s (check_network r o))
    go none e k = cc
    go (some n) e k = given n e (within_network n r.ip_address) refl k

pub create_static_reservation-networks :
    (r : StaticReservation) (s : AppState)
    → (create_static_reservation r s).0.tables.networks ≡ s.tables.networks
unfolding create_static_reservation
create_static_reservation-networks r s = go (check_network r (get_network s.tables r.network_id))
  where
    kept :
        (result : Tables × Result StoreError StaticReservation)
        → Insert r s.tables result
        → result.0.networks ≡ s.tables.networks
    kept _ (inserted free) = refl
    kept _ refused = refl

    go : (w : Result HttpError Bool) → (reserve r s w).0.tables.networks ≡ s.tables.networks
    go (err e) = refl
    go (ok false) = refl
    go (ok true) = kept (Store.create_static_reservation r s.tables) (store-Insert r s.tables)
