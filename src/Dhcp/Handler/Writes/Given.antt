-- ===== src/Dhcp/Handler/Writes/Given.antt =====
-- dhcp/allocator.rs: the addresses that it gives have 32 bits, and are the same for known devices.
use rack_director.Prelude.{
  ℕ, ◌^◌, ◌<◌, ◌≡◌, Option, none, some, List, [], ◌∷◌, Bytes, ok, refl, arith, ok_or, >>=-eq-ok,
  ok_or-eq-ok,
}
use rack_director.Dhcp.Ipv4.{parse_ipv4}
use rack_director.Dhcp.Ipv4.Bounds.{parse_ipv4-lt}
use rack_director.Dhcp.Store.{Tables, DhcpPool}
use rack_director.Dhcp.Allocator.{parse_ip_range, allocate_for_mac_in_network}
use rack_director.Dhcp.Allocator.Free.{InPools, in_first, in_later}
use rack_director.Dhcp.Allocator.Sources.{
  IsSource, reserved, leased, pooled, allocate_for_device-allocate_for_mac,
}
use rack_director.Dhcp.Handler.{allocate}

range-lt : (from to : Bytes) (a b : ℕ) → parse_ip_range from to ≡ ok (a, b) → b < 2 ^ 32
unfolding parse_ip_range
range-lt from to a b h =
    let (x, _, h1) = >>=-eq-ok (ok_or (parse_ipv4 from) _) _ (a, b) h in
    let (y, p, h2) = >>=-eq-ok (ok_or (parse_ipv4 to) _) _ (a, b) h1 in
    let is_b : y ≡ b = cc h2 in
    omega (arith, parse_ipv4-lt to y (ok_or-eq-ok (parse_ipv4 to) _ y p), is_b)

InPools-lt : (a : ℕ) (ps : List DhcpPool) → InPools a ps → a < 2 ^ 32
InPools-lt a [] h = elim h [ ]
InPools-lt a (p ∷ ps) (in_first first last parsed low high) =
    omega (arith, range-lt p.range_start p.range_end first last parsed)
InPools-lt a (p ∷ ps) (in_later h) = InPools-lt a ps h

-- Whether the device is known makes no difference.
pub allocate-mac :
    (uuid : Option ℕ) (t : Tables) (mac : Bytes) (n now : ℕ)
    → allocate uuid t mac n now ≡ allocate_for_mac_in_network t mac n now
allocate-mac (some uuid) t mac n now = allocate_for_device-allocate_for_mac t mac uuid n now
allocate-mac none t mac n now = refl

pub IsSource-lt : (t : Tables) (mac : Bytes) (n now a : ℕ) → IsSource t mac n now a → a < 2 ^ 32
IsSource-lt t mac n now a (reserved r _ e) = parse_ipv4-lt r.ip_address a e
IsSource-lt t mac n now a (leased l _ _ _ _ e) = parse_ipv4-lt l.ip_address a e
IsSource-lt t mac n now a (pooled _ _ inside _) = InPools-lt a _ inside
