-- ===== src/Dhcp/Subnet/Range.antt =====
-- common/src/subnet.rs: what the mask and the range test mean in arithmetic.
use Prim.Native.Nat.{bit_and, digits, bit_and-bitwise}
use native.Mathlib.Nat.{
  div-div-eq-div-mul, pow-succ', one-le-pow, zero-div, mul_assoc, zero-add, pow-le-pow_right,
  div-lt_iff_lt-mul, eq_of_mul-eq-mul_right,
}
use rack_director.Prelude.{
  ℕ, zero, suc, ◌+◌, ◌-◌, ◌*◌, ◌/◌, ◌%◌, ◌^◌, ◌≤◌, ◌<◌, min, ◌≡◌, ◌↔◌, refl, sym, ap, ◌∙◌, true,
  arith, ==_iff, leb, Bool-cases, inl, inr,
}
use rack_director.Dhcp.Subnet.{Ipv4Subnet, netmask, network, ip_in_range, unbounded_shl}

-- A mask of `m` ones above `h` zeros.
abbrev ones_above : ℕ → ℕ → ℕ
ones_above m h = (2 ^ m - 1) * 2 ^ h

pow-pos : (n : ℕ) → 1 ≤ 2 ^ n
pow-pos n = one-le-pow n 2 (omega arith)

module _ (h m : ℕ) where
  ones_above-half : ones_above m (suc h) ≡ 2 * ones_above m h
  ones_above-half = rw (pow-succ' 2 h) (grind arith)

ones_suc : (m : ℕ) → ones_above (suc m) 0 ≡ 2 * ones_above m 0 + 1
ones_suc m = omega (arith, pow-succ' 2 m, pow-pos m)

module _ (h m : ℕ) where
  half_even : (ones_above m (suc h) / 2 ≡ ones_above m h) × (ones_above m (suc h) % 2 ≡ 0)
  half_even = omega (arith, ones_above-half h m)

  half_odd : (ones_above (suc m) 0 / 2 ≡ ones_above m 0) × (ones_above (suc m) 0 % 2 ≡ 1)
  half_odd = omega (arith, ones_suc m)

  half_div : (a : ℕ) → a / 2 / 2 ^ h ≡ a / 2 ^ suc h
  half_div a = div-div-eq-div-mul a 2 (2 ^ h) ∙ ap (λ (p : ℕ). a / p) (sym (pow-succ' 2 h))

-- The digits of `a` above the zeros are kept, if it has no more than the mask.
and_digits :
    (n a h m : ℕ)
    → a ≤ n
    → a / 2 ^ h < 2 ^ m
    → digits (λ b. zero) min n a (ones_above m h) ≡ a / 2 ^ h * 2 ^ h
and_digits zero zero h m le lt = omega (arith, zero-div (2 ^ h))
and_digits zero (suc a) h m le lt = absurd (omega arith)
and_digits (suc n) zero h m le lt = omega (arith, zero-div (2 ^ h))
and_digits (suc n) (suc a) zero zero le lt = absurd (omega arith)
and_digits (suc n) (suc a) zero (suc m) le lt =
    let rest = and_digits n (suc a / 2) zero m (omega arith) (omega (arith, pow-succ' 2 m)) in
    rw ((half_odd 0 m).0, (half_odd 0 m).1) (omega (arith, rest))
and_digits (suc n) (suc a) (suc h) m le lt =
    let rest = and_digits n (suc a / 2) h m (omega arith) (rw (half_div h m (suc a)) lt) in
    rw ((half_even h m).0, (half_even h m).1, rest, half_div h m (suc a), pow-succ' 2 h)
      (grind arith)

bit_and-ones_above :
    (a h m : ℕ) → a / 2 ^ h < 2 ^ m → bit_and a (ones_above m h) ≡ a / 2 ^ h * 2 ^ h
bit_and-ones_above a h m lt =
    bit_and-bitwise a (ones_above m h) ∙ and_digits a a h m (omega arith) lt

pow-add : (k h : ℕ) → 2 ^ k * 2 ^ h ≡ 2 ^ (k + h)
pow-add zero h = rw (zero-add h) (omega arith)
pow-add (suc k) h =
    let next : suc k + h ≡ suc (k + h) = omega arith in
    rw (pow-succ' 2 k, mul_assoc 2 (2 ^ k) (2 ^ h), pow-add k h, next) (sym (pow-succ' 2 (k + h)))

one-less : (q p : ℕ) → 1 ≤ q → (q - 1) * p ≡ q * p - p
one-less zero p h = absurd (omega arith)
one-less (suc q) p h = grind arith

shifted : (p : ℕ) → 1 ≤ p → p < 2 ^ 32 → 0xffff_ffff * p % 2 ^ 32 ≡ 2 ^ 32 - p
shifted p pos lt = omega arith

module _ (s : Ipv4Subnet) (short : s.subnet ≤ 32) where
  abbrev host_bits : ℕ
  host_bits = 32 - s.subnet

  split : 2 ^ s.subnet * 2 ^ host_bits ≡ 2 ^ 32
  split =
      let all_bits : s.subnet + host_bits ≡ 32 = omega arith in
      pow-add s.subnet host_bits ∙ ap (λ (n : ℕ). 2 ^ n) all_bits

  ones_above-netmask : ones_above s.subnet host_bits ≡ 2 ^ 32 - 2 ^ host_bits
  ones_above-netmask =
      one-less (2 ^ s.subnet) (2 ^ host_bits) (pow-pos s.subnet)
      ∙ ap (λ (n : ℕ). n - 2 ^ host_bits) split

  masked : (h : ℕ) → h ≤ 32 → unbounded_shl 0xffff_ffff h ≡ 2 ^ 32 - 2 ^ h
  masked h le = elim (Bool-cases (leb 32 h)) [
    | inl e ↦ let last : h ≡ 32 = ground arith in rw last refl
    | inr e ↦ rw e (
        shifted (2 ^ h) (pow-pos h)
          (omega (arith, pow-le-pow_right {n = 2} (omega arith) {i = h} {j = 31} (ground arith))))
  ]

  pub netmask_lem : netmask s ≡ 2 ^ 32 - 2 ^ host_bits
  unfolding netmask
  netmask_lem = masked host_bits (omega arith)

  -- The masked address is the address with its host bits cleared.
  network-eq : (a : ℕ) → a < 2 ^ 32 → bit_and a (netmask s) ≡ a / 2 ^ host_bits * 2 ^ host_bits
  network-eq a lt = rw (netmask_lem ∙ sym ones_above-netmask) (
      bit_and-ones_above a host_bits s.subnet
        ((div-lt_iff_lt-mul (pow-pos host_bits)).1 (omega (arith, split))))

  -- With a prefix of at most 32 bits, an address is in the range of a subnet exactly if it agrees
  -- with the address of the subnet above the host bits.
  pub ip_in_range_iff :
      (ip : ℕ)
      → s.addr < 2 ^ 32
      → ip < 2 ^ 32
      → (ip_in_range s ip ≡ true) ↔ (ip / 2 ^ host_bits ≡ s.addr / 2 ^ host_bits)
  unfolding ip_in_range network
  ip_in_range_iff ip addr_small ip_small =
      rw (network-eq ip ip_small, network-eq s.addr addr_small)
        (
          (λ e. eq_of_mul-eq-mul_right (2 ^ host_bits) (pow-pos host_bits) _ _ ((==_iff _ _).0 e)),
          (λ e. (==_iff _ _).1 (ap (λ (q : ℕ). q * 2 ^ host_bits) e)),
        )
