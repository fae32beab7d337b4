-- ===== src/Dhcp/Subnet.antt =====
-- common/src/subnet.rs: `Ipv4Subnet`, its parser and its range test. An address is its 32 bits.
pub mod Range
use Prim.Native.Nat.{bit_and}
use rack_director.Prelude.{
  ℕ, ◌-◌, ◌*◌, ◌^◌, ◌%◌, ◌≡◌, refl, Bool, true, false, Option, none, some, List, [], ◌∷◌, Bytes,
  codes, ◌==◌, ltb, leb, if◌then◌else◌, Result, ok, err, ◌>>=◌, ok_or,
}
use rack_director.Dhcp.Ipv4.{parse_ipv4}
use rack_director.Tftp.Decimal.{from_str}

pub record Ipv4Subnet : Type 0 where
  pub addr : ℕ
  pub subnet : ℕ

pub data Ipv4SubnetError : Type 0 where
  invalid_cidr invalid_prefix : Ipv4SubnetError

-- `u32::unbounded_shl`.
abbrev pub unbounded_shl : ℕ → ℕ → ℕ
unbounded_shl x n = if leb 32 n then 0 else x * 2 ^ n % 2 ^ 32

unfoldable pub netmask : Ipv4Subnet → ℕ
netmask s = unbounded_shl 0xffff_ffff (32 - s.subnet)

unfoldable pub network : Ipv4Subnet → ℕ
network s = bit_and s.addr (netmask s)

unfoldable pub ip_in_range : Ipv4Subnet → ℕ → Bool
ip_in_range s ip = bit_and ip (netmask s) == network s

-- `str::split_once`.
unfoldable pub split_once : ℕ → Bytes → Option (Bytes × Bytes)
split_once c [] = none
split_once c (x ∷ xs) =
    if x == c
    then some ([], xs)
    else elim (split_once c xs) [ none ↦ none | some (l, r) ↦ some (x ∷ l, r) ]

-- `u8::from_str` reads what `u64::from_str` reads, up to 255.
abbrev pub fits_u8 : Option ℕ → Option ℕ
fits_u8 none = none
fits_u8 (some n) = if ltb 255 n then none else some n

abbrev parse_parts : Option (Bytes × Bytes) → Result Ipv4SubnetError Ipv4Subnet
parse_parts none = err invalid_cidr
parse_parts (some (l, r)) = do
  addr ← ok_or (parse_ipv4 l) invalid_cidr
  subnet ← ok_or (fits_u8 (from_str r)) invalid_cidr
  if ltb 32 subnet then err invalid_prefix else ok (record { addr = addr; subnet = subnet })

unfoldable pub parse_subnet : Bytes → Result Ipv4SubnetError Ipv4Subnet
unfolding split_once
parse_subnet s = parse_parts (split_once b'/' s)

-- The tests of subnet.rs.
netmask_24 : netmask (record { addr = 2130706433; subnet = 24 }) ≡ 0xffff_ff00
unfolding netmask
netmask_24 = refl

netmask_0 : netmask (record { addr = 2130706433; subnet = 0 }) ≡ 0
unfolding netmask
netmask_0 = refl

inside : ip_in_range (record { addr = 0xc0a8_000f; subnet = 24 }) 0xc0a8_0064 ≡ true
unfolding ip_in_range network netmask
inside = refl

outside : ip_in_range (record { addr = 0xc0a8_000f; subnet = 24 }) 0xc0a8_0164 ≡ false
unfolding ip_in_range network netmask
outside = refl

parsed : parse_subnet (codes "10.0.0.0/33") ≡ err invalid_prefix
unfolding parse_subnet parse_ipv4 from_str
parsed = refl
