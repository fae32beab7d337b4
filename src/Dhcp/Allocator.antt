-- ===== src/Dhcp/Allocator.antt =====
-- dhcp/allocator.rs: the address that a device is given. `now` is the clock's reading.
pub mod Taken
pub mod Free
pub mod Sources
use rack_director.Prelude.{
  ℕ, zero, suc, ◌+◌, ◌-◌, Bool, true, false, ◌&&◌, ◌||◌, not, Option, none, some, List, [], ◌∷◌,
  Bytes, str_eq, ◌==◌, ltb, leb, if◌then◌else◌, any, find, is_empty, Result, ok, err, ◌>>=◌, ok_or,
}
use rack_director.Dhcp.Ipv4.{parse_ipv4}
use rack_director.Dhcp.Store.{
  Lease, StaticReservation, DhcpPool, Tables, is_network, is_expired, get_lease_by_mac,
  get_static_reservation, filter, list_pools_for_network,
}

abbrev pub push : Option ℕ → List ℕ → List ℕ
push none xs = xs
push (some x) xs = x ∷ xs

-- The addresses of the texts that parse.
abbrev pub addresses : {A : Type 0} → (A → Bytes) → List A → List ℕ
addresses text [] = []
addresses text (x ∷ xs) = push (parse_ipv4 (text x)) (addresses text xs)

unfoldable pub active_ips : Tables → ℕ → ℕ → List ℕ
active_ips t network_id now =
    addresses (λ l. l.ip_address)
      (filter (λ l. is_network network_id l.network_id && not (is_expired now l)) t.leases)

unfoldable pub reserved_ips : Tables → ℕ → List ℕ
reserved_ips t network_id =
    addresses (λ r. r.ip_address) (filter (λ r. r.network_id == network_id) t.reservations)

pub data AllocationError : Type 0 where
  no_pools invalid_address exhausted : AllocationError

unfoldable pub parse_ip_range : Bytes → Bytes → Result AllocationError (ℕ × ℕ)
parse_ip_range range_start range_end = do
  start_u32 ← ok_or (parse_ipv4 range_start) invalid_address
  end_u32 ← ok_or (parse_ipv4 range_end) invalid_address
  ok (start_u32, end_u32)

-- The first of the `n` addresses from `ip` that is not taken.
unfoldable pub first_free : (ℕ → Bool) → ℕ → ℕ → Option ℕ
first_free taken ip zero = none
first_free taken ip (suc n) =
    let later = first_free taken (suc ip) n in if taken ip then later else some ip

-- The range is inclusive, and empty when it ends before it starts.
unfoldable pub free_in_range : (ℕ → Bool) → ℕ × ℕ → Option ℕ
unfolding first_free
free_in_range taken (first, last) = first_free taken first (suc last - first)

abbrev pub or_rest : Option ℕ → Result AllocationError ℕ → Result AllocationError ℕ
or_rest (some ip) rest = ok ip
or_rest none rest = rest

unfoldable pub try_pools : (ℕ → Bool) → List DhcpPool → Result AllocationError ℕ
try_pools taken [] = err exhausted
try_pools taken (p ∷ ps) =
    let rest = try_pools taken ps in
    parse_ip_range p.range_start p.range_end >>= (λ range. or_rest (free_in_range taken range) rest)

abbrev pub contains : List ℕ → ℕ → Bool
contains ips ip = any (λ a. a == ip) ips

unfoldable pub is_taken : Tables → ℕ → ℕ → ℕ → Bool
is_taken t network_id now ip =
    contains (active_ips t network_id now) ip || contains (reserved_ips t network_id) ip

unfoldable pub allocate_from_pools : Tables → ℕ → ℕ → Result AllocationError ℕ
allocate_from_pools t network_id now =
    let pools = list_pools_for_network t network_id in
    if is_empty pools then err no_pools else try_pools (is_taken t network_id now) pools

abbrev pub reusable : ℕ → ℕ → Option Lease → Option Bytes
reusable network_id now none = none
reusable network_id now (some l) =
    if not (is_expired now l) && is_network network_id l.network_id then some l.ip_address else none

abbrev pub from_lease : Option Bytes → Result AllocationError ℕ → Result AllocationError ℕ
from_lease none pools = pools
from_lease (some text) pools = ok_or (parse_ipv4 text) invalid_address

abbrev pub from_reservation :
    Option StaticReservation → Result AllocationError ℕ → Result AllocationError ℕ
from_reservation none others = others
from_reservation (some r) others = ok_or (parse_ipv4 r.ip_address) invalid_address

unfoldable pub allocate_for_mac_in_network : Tables → Bytes → ℕ → ℕ → Result AllocationError ℕ
allocate_for_mac_in_network t mac network_id now =
    from_reservation (get_static_reservation t network_id mac) (
      from_lease (reusable network_id now (get_lease_by_mac t mac))
        (allocate_from_pools t network_id now))

-- The same for a known device, whose id only the log has.
unfoldable pub allocate_for_device_in_network :
    Tables → Bytes → ℕ → ℕ → ℕ → Result AllocationError ℕ
allocate_for_device_in_network t mac uuid network_id now =
    from_reservation (get_static_reservation t network_id mac) (
      from_lease (reusable network_id now (get_lease_by_mac t mac))
        (allocate_from_pools t network_id now))
