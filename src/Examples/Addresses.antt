-- ===== src/Examples/Addresses.antt =====
-- Addresses that dhcp/allocator.rs gives out in a small network.
use rack_director.Prelude.{ℕ, ◌≡◌, refl, some, none, [], ◌∷◌, codes, str_eq, ok, err}
use rack_director.Dhcp.Ipv4.{parse_ipv4}
use rack_director.Dhcp.Store.{
  active, Tables, get_static_reservation, get_lease_by_mac, is_expired, list_pools_for_network,
}
use rack_director.Dhcp.Allocator.{
  allocate_from_pools, allocate_for_mac_in_network, try_pools, parse_ip_range, free_in_range,
  active_ips, reserved_ips, is_taken, exhausted,
}
use rack_director.Dhcp.Allocator.Taken.{IsFree, IsInUse}
use rack_director.Dhcp.Allocator.Free.{InPools, allocate_from_pools-IsFree}
use rack_director.Dhcp.Allocator.Sources.{IsSource, allocate_for_mac-IsSource}

-- Network 1 has the addresses 10.0.0.1 to 10.0.0.3: the first is leased, the second reserved.
abbrev tables : Tables
tables = record {
  leases =
      record {
        mac_address = codes "aa";
        ip_address = codes "10.0.0.1";
        device_uuid = none;
        lease_start = 10;
        lease_end = 50;
        state = active;
        network_id = some 1;
      }
      ∷ [];
  reservations =
      record { network_id = 1; mac_address = codes "bb"; ip_address = codes "10.0.0.2" } ∷ [];
  pools =
      record {
        network_id = 1;
        name = codes "p";
        range_start = codes "10.0.0.1";
        range_end = codes "10.0.0.3";
      }
      ∷ [];
  networks = [];
}

gives_third : allocate_for_mac_in_network tables (codes "cc") 1 20 ≡ ok 167772163
unfolding allocate_for_mac_in_network get_static_reservation get_lease_by_mac allocate_from_pools
    list_pools_for_network try_pools parse_ip_range parse_ipv4 free_in_range is_taken active_ips
    reserved_ips is_expired str_eq
gives_third = refl

allocate_for_mac-IsSource_example : IsSource tables (codes "cc") 1 20 167772163
allocate_for_mac-IsSource_example =
    allocate_for_mac-IsSource tables (codes "cc") 1 20 167772163 gives_third

allocate_from_pools-IsFree_example :
    ((a : ℕ)
      → allocate_from_pools tables 1 20 ≡ ok a
      → InPools a (list_pools_for_network tables 1) × IsFree tables 1 20 a)
    × ((a : ℕ)
        → allocate_from_pools tables 1 20 ≡ err exhausted
        → InPools a (list_pools_for_network tables 1)
        → IsInUse tables 1 20 a)
allocate_from_pools-IsFree_example = allocate_from_pools-IsFree tables 1 20
