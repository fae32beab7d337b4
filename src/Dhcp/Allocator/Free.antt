-- ===== src/Dhcp/Allocator/Free.antt =====
-- dhcp/allocator.rs: the address that is given out is free, and one is given out if there is one.
use rack_director.Prelude.{
  ℕ, zero, suc, ◌+◌, ◌-◌, ◌≤◌, ◌<◌, ◌≡◌, ◌≢◌, ◌⊎◌, inl, inr, Bool, true, false, Option, none, some,
  List, [], ◌∷◌, Bytes, if◌then◌else◌, Result, ok, err, ◌>>=◌, >>=-eq-ok, ok_or, ok-injective, refl,
  sym, ap, subst, ◌∙◌, arith, is_empty,
}
use rack_director.Dhcp.Ipv4.{parse_ipv4}
use rack_director.Dhcp.Store.{DhcpPool, Tables, list_pools_for_network}
use rack_director.Dhcp.Allocator.Taken.{IsFree, IsInUse, not_taken-IsFree, taken-IsInUse}
use rack_director.Dhcp.Allocator.{
  AllocationError, no_pools, invalid_address, exhausted, parse_ip_range, first_free, free_in_range,
  try_pools, or_rest, is_taken, allocate_from_pools,
}

first_free-some :
    (taken : ℕ → Bool) (ip n a : ℕ)
    → first_free taken ip n ≡ some a
    → (ip ≤ a) × (a < ip + n) × (taken a ≡ false)
unfolding first_free
first_free-some taken ip zero a h = cc
first_free-some taken ip (suc n) a h = go (taken ip) refl h (first_free-some taken (suc ip) n a)
  where
    go :
        (b : Bool)
        → taken ip ≡ b
        → (if b then first_free taken (suc ip) n else some ip) ≡ some a
        → (first_free taken (suc ip) n ≡ some a
            → (suc ip ≤ a) × (a < suc ip + n) × (taken a ≡ false))
        → (ip ≤ a) × (a < ip + suc n) × (taken a ≡ false)
    go true e h later =
        let (low, high, free) = later h in (omega (arith, low), omega (arith, high), free)
    go false e h later =
        let same : ip ≡ a = cc in
        (omega (arith, same), omega (arith, same), subst (λ k. taken k ≡ false) same e)

first_free-none :
    (taken : ℕ → Bool) (ip n a : ℕ)
    → first_free taken ip n ≡ none
    → ip ≤ a
    → a < ip + n
    → taken a ≡ true
unfolding first_free
first_free-none taken ip zero a h low high = ground arith
first_free-none taken ip (suc n) a h low high =
    go (taken ip) refl h (first_free-none taken (suc ip) n a)
  where
    go :
        (b : Bool)
        → taken ip ≡ b
        → (if b then first_free taken (suc ip) n else some ip) ≡ none
        → (first_free taken (suc ip) n ≡ none → suc ip ≤ a → a < suc ip + n → taken a ≡ true)
        → taken a ≡ true
    go true e h later =
        let here_or_later : (ip ≡ a) ⊎ (suc ip ≤ a) = ground arith in
        elim here_or_later [
          | inl same ↦ subst (λ k. taken k ≡ true) same e
          | inr above ↦ later h above (omega (arith, high))
        ]
    go false e h later = cc

-- An address of a pool: the pool's range parses and holds it.
pub data InPools (a : ℕ) : List DhcpPool → Type 0 where
  in_first :
      {p : DhcpPool} {ps : List DhcpPool} (first last : ℕ)
      → parse_ip_range p.range_start p.range_end ≡ ok (first, last)
      → first ≤ a
      → a ≤ last
      → InPools a (p ∷ ps)
  in_later : {p : DhcpPool} {ps : List DhcpPool} → InPools a ps → InPools a (p ∷ ps)

try_pools-ok :
    (taken : ℕ → Bool) (ps : List DhcpPool) (a : ℕ)
    → try_pools taken ps ≡ ok a
    → InPools a ps × (taken a ≡ false)
unfolding try_pools free_in_range
try_pools-ok taken [] a h = cc
try_pools-ok taken (p ∷ ps) a h =
    let ((first, last), parsed, h1) = >>=-eq-ok (parse_ip_range p.range_start p.range_end) _ a h in
    go first last parsed (first_free taken first (suc last - first)) refl h1
      (try_pools-ok taken ps a)
  where
    go :
        (first last : ℕ)
        → parse_ip_range p.range_start p.range_end ≡ ok (first, last)
        → (found : Option ℕ) → first_free taken first (suc last - first) ≡ found
        → or_rest found (try_pools taken ps) ≡ ok a
        → (try_pools taken ps ≡ ok a → InPools a ps × (taken a ≡ false))
        → InPools a (p ∷ ps) × (taken a ≡ false)
    go first last parsed none e h later = let (inside, free) = later h in (in_later inside, free)
    go first last parsed (some b) e h later =
        let same = ok-injective h in
        let (low, high, free) =
          first_free-some taken first (suc last - first) a (e ∙ ap some same) in
        (in_first first last parsed low (omega (arith, high, low)), free)

abbrev both : Result AllocationError ℕ → Result AllocationError ℕ → Result AllocationError (ℕ × ℕ)
both a b = a >>= (λ x. b >>= (λ y. pair x y))
  where
    pair : ℕ → ℕ → Result AllocationError (ℕ × ℕ)
    pair x y = ok (x, y)

range-not_exhausted : (from to : Bytes) → parse_ip_range from to ≢ err exhausted
unfolding parse_ip_range
range-not_exhausted from to h = go (parse_ipv4 from) (parse_ipv4 to) h
  where
    go : (a b : Option ℕ) → both (ok_or a invalid_address) (ok_or b invalid_address) ≢ err exhausted
    go none b h = cc
    go (some x) none h = cc
    go (some x) (some y) h = cc

-- What a failed search has seen of its first pool.
exhausted-first :
    (taken : ℕ → Bool) (p : DhcpPool) (ps : List DhcpPool)
    → try_pools taken (p ∷ ps) ≡ err exhausted
    → (first : ℕ) × (last : ℕ) × (parse_ip_range p.range_start p.range_end ≡ ok (first, last))
      × (first_free taken first (suc last - first) ≡ none)
      × (try_pools taken ps ≡ err exhausted)
unfolding try_pools free_in_range
exhausted-first taken p ps h = go (parse_ip_range p.range_start p.range_end) refl h
  where
    found :
        (first last : ℕ) (f : Option ℕ)
        → first_free taken first (suc last - first) ≡ f
        → or_rest f (try_pools taken ps) ≡ err exhausted
        → (first_free taken first (suc last - first) ≡ none) × (try_pools taken ps ≡ err exhausted)
    found first last none e h = (e, h)
    found first last (some b) e h = cc

    go :
        (r : Result AllocationError (ℕ × ℕ))
        → parse_ip_range p.range_start p.range_end ≡ r
        → (r >>= (λ range. or_rest (free_in_range taken range) (try_pools taken ps)))
          ≡ err exhausted
        → (first : ℕ) × (last : ℕ) × (parse_ip_range p.range_start p.range_end ≡ ok (first, last))
          × (first_free taken first (suc last - first) ≡ none)
          × (try_pools taken ps ≡ err exhausted)
    go (ok (first, last)) e h =
        let (none_free, rest) =
          found first last (first_free taken first (suc last - first)) refl h in
        (first, last, e, none_free, rest)
    go (err x) e h =
        elim (range-not_exhausted p.range_start p.range_end
          (let same : x ≡ exhausted = cc in e ∙ ap err same)) [ ]

try_pools-exhausted :
    (taken : ℕ → Bool) (ps : List DhcpPool) (a : ℕ)
    → try_pools taken ps ≡ err exhausted
    → InPools a ps
    → taken a ≡ true
try_pools-exhausted taken [] a h inside = elim inside [ ]
try_pools-exhausted taken (p ∷ ps) a h (in_first first last parsed low high) =
    let (f, l, parsed', none_free, _) = exhausted-first taken p ps h in
    let same : ◌≡◌ {A = ℕ × ℕ} (f, l) (first, last) = ok-injective (sym parsed' ∙ parsed) in
    let f_same : f ≡ first = ap (λ (r : ℕ × ℕ). r.0) same in
    let l_same : l ≡ last = ap (λ (r : ℕ × ℕ). r.1) same in
    first_free-none taken f (suc l - f) a none_free (omega (arith, f_same, low))
      (omega (arith, f_same, l_same, low, high))
try_pools-exhausted taken (p ∷ ps) a h (in_later inside) =
    let (_, _, _, _, rest) = exhausted-first taken p ps h in
    try_pools-exhausted taken ps a rest inside

-- An address that comes from the pools of a network is in one of them, and no lease of the network
-- that ends now or later and no reservation in it has the address. If the answer is that the pools
-- are exhausted, then such a lease or a reservation has each address in them.
pub allocate_from_pools-IsFree :
    (t : Tables) (network_id now : ℕ)
    → ((a : ℕ)
        → allocate_from_pools t network_id now ≡ ok a
        → InPools a (list_pools_for_network t network_id) × IsFree t network_id now a)
      × ((a : ℕ)
          → allocate_from_pools t network_id now ≡ err exhausted
          → InPools a (list_pools_for_network t network_id)
          → IsInUse t network_id now a)
unfolding allocate_from_pools
allocate_from_pools-IsFree t network_id now = go (list_pools_for_network t network_id)
  where
    go :
        (ps : List DhcpPool)
        → ((a : ℕ)
            → (if is_empty ps then err no_pools else try_pools (is_taken t network_id now) ps)
              ≡ ok a
            → InPools a ps × IsFree t network_id now a)
          × ((a : ℕ)
              → (if is_empty ps then err no_pools else try_pools (is_taken t network_id now) ps)
                ≡ err exhausted
              → InPools a ps
              → IsInUse t network_id now a)
    go [] = (λ a h. cc, λ a h inside. elim inside [ ])
    go (p ∷ ps) = (
      λ a h.
          let (inside, free) = try_pools-ok (is_taken t network_id now) (p ∷ ps) a h in
          (inside, not_taken-IsFree t network_id now a free),
      λ a h inside.
          taken-IsInUse t network_id now a
            (try_pools-exhausted (is_taken t network_id now) (p ∷ ps) a h inside),
    )
