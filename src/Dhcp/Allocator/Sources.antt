-- ===== src/Dhcp/Allocator/Sources.antt =====
-- dhcp/allocator.rs: where the address of a device comes from.
use rack_director.Prelude.{
  ◌≡◌, Bool, true, false, ◌&&◌, not, Option, none, some, Bytes, if◌then◌else◌, ok, ok_or-eq-ok,
  ==_iff, refl, sym, ap, ◌∙◌, ◌≤◌, arith, ℕ,
}
use rack_director.Dhcp.Ipv4.{parse_ipv4}
use rack_director.Dhcp.Store.{
  Lease, StaticReservation, get_static_reservation, get_lease_by_mac, is_expired, is_network,
  Tables, list_pools_for_network,
}
use rack_director.Dhcp.Allocator.{
  allocate_for_device_in_network, reusable, from_lease, from_reservation,
  allocate_for_mac_in_network, invalid_address, allocate_from_pools,
}
use rack_director.Dhcp.Allocator.Taken.{IsFree}
use rack_director.Dhcp.Allocator.Free.{InPools, allocate_from_pools-IsFree}

-- The device has no lease of the network that ends now or later.
abbrev pub HasNoLease : Tables → Bytes → ℕ → ℕ → Type 0
HasNoLease t mac network_id now =
    (l : Lease)
    → get_lease_by_mac t mac ≡ some l
    → l.network_id ≡ some network_id
    → ¬ (now ≤ l.lease_end)

pub data IsSource (t : Tables) (mac : Bytes) (network_id now a : ℕ) : Type 0 where
  reserved :
      (r : StaticReservation)
      → get_static_reservation t network_id mac ≡ some r
      → parse_ipv4 r.ip_address ≡ some a
      → IsSource t mac network_id now a
  leased :
      (l : Lease)
      → get_static_reservation t network_id mac ≡ none
      → get_lease_by_mac t mac ≡ some l
      → now ≤ l.lease_end
      → l.network_id ≡ some network_id
      → parse_ipv4 l.ip_address ≡ some a
      → IsSource t mac network_id now a
  pooled :
      get_static_reservation t network_id mac ≡ none
      → HasNoLease t mac network_id now
      → InPools a (list_pools_for_network t network_id)
      → IsFree t network_id now a
      → IsSource t mac network_id now a

live-here :
    (x y : Bool) (t text : Bytes)
    → (if not x && y then some t else none) ≡ some text
    → (x ≡ false) × (y ≡ true) × (t ≡ text)
live-here true y t text h = cc
live-here false false t text h = cc
live-here false true t text h = (refl, refl, cc)

is_network-true :
    (network_id : ℕ) (n : Option ℕ) → is_network network_id n ≡ true → n ≡ some network_id
is_network-true network_id none h = cc
is_network-true network_id (some n) h = ap some ((==_iff n network_id).0 h)

reusable-some :
    (network_id now : ℕ) (found : Option Lease) (text : Bytes)
    → reusable network_id now found ≡ some text
    → (l : Lease) × (found ≡ some l)
      × (now ≤ l.lease_end)
      × (l.network_id ≡ some network_id)
      × (l.ip_address ≡ text)
unfolding is_expired
reusable-some network_id now none text h = cc
reusable-some network_id now (some l) text h =
    let (live, here, same) =
      live-here (is_expired now l) (is_network network_id l.network_id) l.ip_address text h in
    (l, refl, ground (arith, live), is_network-true network_id l.network_id here, same)

reusable-none :
    (t : Tables) (mac : Bytes) (network_id now : ℕ)
    → reusable network_id now (get_lease_by_mac t mac) ≡ none
    → HasNoLease t mac network_id now
unfolding is_expired
reusable-none t mac network_id now h l found here running =
    let unusable : reusable network_id now (some l) ≡ none =
      ap (reusable network_id now) (sym found) ∙ h in
    absurd (usable l here (ground arith) unusable)
  where
    usable :
        (l : Lease)
        → l.network_id ≡ some network_id
        → is_expired now l ≡ false
        → reusable network_id now (some l) ≡ none
        → ⊥
    usable l here live h =
        let kept : reusable network_id now (some l) ≡ some l.ip_address =
          rw (live, here, (==_iff network_id network_id).1 refl) refl in
        cc

-- A device is given the address of its reservation; without one, the address of its lease, if that
-- ends now or later and is of this network; without either, a free address of the network's pools.
pub allocate_for_mac-IsSource :
    (t : Tables) (mac : Bytes) (network_id now a : ℕ)
    → allocate_for_mac_in_network t mac network_id now ≡ ok a
    → IsSource t mac network_id now a
unfolding allocate_for_mac_in_network
allocate_for_mac-IsSource t mac network_id now a h =
    go (get_static_reservation t network_id mac) refl h
  where
    lease :
        (text : Option Bytes)
        → get_static_reservation t network_id mac ≡ none
        → reusable network_id now (get_lease_by_mac t mac) ≡ text
        → from_lease text (allocate_from_pools t network_id now) ≡ ok a
        → IsSource t mac network_id now a
    lease none unreserved e h =
        let (inside, free) = (allocate_from_pools-IsFree t network_id now).0 a h in
        pooled unreserved (reusable-none t mac network_id now e) inside free
    lease (some text) unreserved e h =
        let (l, found, live, here, same) =
          reusable-some network_id now (get_lease_by_mac t mac) text e in
        leased l unreserved found live here
          (ap parse_ipv4 same ∙ ok_or-eq-ok (parse_ipv4 text) invalid_address a h)

    go :
        (r : Option StaticReservation)
        → get_static_reservation t network_id mac ≡ r
        → from_reservation r (
            from_lease
              (reusable network_id now (get_lease_by_mac t mac))
              (allocate_from_pools t network_id now))
          ≡ ok a
        → IsSource t mac network_id now a
    go none e h = lease (reusable network_id now (get_lease_by_mac t mac)) e refl h
    go (some r) e h = reserved r e (ok_or-eq-ok (parse_ipv4 r.ip_address) invalid_address a h)

pub allocate_for_device-allocate_for_mac :
    (t : Tables) (mac : Bytes) (uuid network_id now : ℕ)
    → allocate_for_device_in_network t mac uuid network_id now
      ≡ allocate_for_mac_in_network t mac network_id now
unfolding allocate_for_device_in_network allocate_for_mac_in_network
allocate_for_device-allocate_for_mac t mac uuid network_id now = refl
