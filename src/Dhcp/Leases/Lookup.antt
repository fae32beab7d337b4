-- ===== src/Dhcp/Leases/Lookup.antt =====
-- dhcp/store.rs: the lease that `get_lease_by_mac` finds after a statement.
use rack_director.Prelude.{
  ℕ, ◌+◌, ◌≡◌, Bool, true, false, Option, some, List, [], ◌∷◌, Bytes, if◌then◌else◌, find, map,
  str_eq_refl, refl, ap, ◌∙◌,
}
use rack_director.Dhcp.Ipv4.{format_ipv4}
use rack_director.Dhcp.Store.{
  Lease, LeaseState, Tables, has_mac, upsert_lease, set_state, get_lease_by_mac, activate_lease,
  release_lease, create_or_update_lease_with_network, active, released,
}

find-upsert_lease :
    (l : Lease) (ls : List Lease) → find (has_mac l.mac_address) (upsert_lease l ls) ≡ some l
unfolding upsert_lease
find-upsert_lease l [] = rw (str_eq_refl l.mac_address)
find-upsert_lease l (x ∷ xs) = go (has_mac l.mac_address x) refl (find-upsert_lease l xs)
  where
    go :
        (b : Bool)
        → has_mac l.mac_address x ≡ b
        → find (has_mac l.mac_address) (upsert_lease l xs) ≡ some l
        → find (has_mac l.mac_address) (if b then l ∷ xs else x ∷ upsert_lease l xs) ≡ some l
    go true e rest = rw (str_eq_refl l.mac_address)
    go false e rest = rw e rest

abbrev pub lease_of : Bytes → ℕ → Option ℕ → LeaseState → ℕ → ℕ → ℕ → Lease
lease_of mac ip uuid state duration n now = record {
  mac_address = mac;
  ip_address = format_ipv4 ip;
  device_uuid = uuid;
  lease_start = now;
  lease_end = now + duration;
  state = state;
  network_id = some n;
}

pub get_lease-stored :
    (mac : Bytes) (ip : ℕ) (uuid : Option ℕ) (state : LeaseState) (duration n now : ℕ) (t : Tables)
    → get_lease_by_mac (create_or_update_lease_with_network mac ip uuid state duration n now t) mac
      ≡ some (lease_of mac ip uuid state duration n now)
unfolding get_lease_by_mac create_or_update_lease_with_network
get_lease-stored mac ip uuid state duration n now t =
    find-upsert_lease (lease_of mac ip uuid state duration n now) t.leases

has_mac-set_state :
    (mac : Bytes) (state : LeaseState) (l : Lease)
    → has_mac mac (set_state mac state l) ≡ has_mac mac l
has_mac-set_state mac state l = go (has_mac mac l)
  where
    go : (b : Bool) → has_mac mac (if b then record l { state = state } else l) ≡ has_mac mac l
    go true = refl
    go false = refl

find-set_state :
    (mac : Bytes) (state : LeaseState) (ls : List Lease) (l : Lease)
    → find (has_mac mac) ls ≡ some l
    → find (has_mac mac) (map (set_state mac state) ls) ≡ some (record l { state = state })
find-set_state mac state [] l h = cc
find-set_state mac state (x ∷ xs) l h = go (has_mac mac x) refl h (find-set_state mac state xs l)
  where
    go :
        (b : Bool)
        → has_mac mac x ≡ b
        → (if b then some x else find (has_mac mac) xs) ≡ some l
        → (find (has_mac mac) xs ≡ some l
            → find (has_mac mac) (map (set_state mac state) xs) ≡ some (record l { state = state }))
        → find (has_mac mac) (map (set_state mac state) (x ∷ xs))
          ≡ some (record l { state = state })
    go true e h rest =
        rw (has_mac-set_state mac state x ∙ e) (
          rw e
            (let is_l : x ≡ l = cc in ap (λ (z : Lease). some (record z { state = state })) is_l))
    go false e h rest = rw (has_mac-set_state mac state x ∙ e) (rest h)

pub get_lease-activated :
    (mac : Bytes) (t : Tables) (l : Lease)
    → get_lease_by_mac t mac ≡ some l
    → get_lease_by_mac (activate_lease mac t) mac ≡ some (record l { state = active })
unfolding get_lease_by_mac activate_lease
get_lease-activated mac t l h = find-set_state mac active t.leases l h

pub get_lease-released :
    (mac : Bytes) (t : Tables) (l : Lease)
    → get_lease_by_mac t mac ≡ some l
    → get_lease_by_mac (release_lease mac t) mac ≡ some (record l { state = released })
unfolding get_lease_by_mac release_lease
get_lease-released mac t l h = find-set_state mac released t.leases l h
