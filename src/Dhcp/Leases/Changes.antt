-- ===== src/Dhcp/Leases/Changes.antt =====
-- dhcp/store.rs and dhcp/handler.rs: what one packet may do to the table of leases.
use rack_director.Prelude.{
  ℕ, ◌^◌, ◌<◌, ◌≡◌, ◌⊎◌, inl, inr, Bool, true, false, not, Option, some, Bytes, Any, sym, subst,
  ◌∙◌, if◌then◌else◌, map,
}
use rack_director.Dhcp.Ipv4.RoundTrip.{parse_ipv4-format_ipv4}
use rack_director.Dhcp.Store.{
  Lease, Tables, LeaseState, is_expired, has_mac, set_state, delete_expired_leases,
  create_or_update_lease_with_network,
}
use rack_director.Dhcp.Allocator.Sources.{IsSource}
use rack_director.Dhcp.Leases.Sources.{source-Holds, source-Reserves}
use rack_director.Dhcp.Leases.Holders.{
  Holds, Reserves, IsConsistent, Any-map_back, Any-filter, Any-upsert_lease,
}

-- A lease is stored whose address comes from an allowed source, a lease is given a state, or
-- expired leases are removed.
pub data Change (now : ℕ) (t : Tables) : Tables → Type 0 where
  same : Change now t t
  stored :
      (mac : Bytes) (ip : ℕ) (uuid : Option ℕ) (state : LeaseState) (duration network_id : ℕ)
      → IsSource t mac network_id now ip
      → ip < 2 ^ 32
      → Change now t
          (create_or_update_lease_with_network mac ip uuid state duration network_id now t)
  marked :
      (mac : Bytes) (state : LeaseState)
      → Change now t (record t { leases = map (set_state mac state) t.leases })
  pruned : Change now t (delete_expired_leases now t)

set_state-Holds :
    (now n a : ℕ) (m mac : Bytes) (state : LeaseState) (l : Lease)
    → Holds now n a m (set_state mac state l)
    → Holds now n a m l
unfolding is_expired
set_state-Holds now n a m mac state l h = go (has_mac mac l) h
  where
    go :
        (b : Bool)
        → Holds now n a m (if b then record l { state = state } else l)
        → Holds now n a m l
    go true h = record {
      by_mac = h.by_mac;
      running = h.running;
      here = h.here;
      address = h.address;
    }
    go false h = h

module _ (now : ℕ) (t : Tables) (mac : Bytes) (ip : ℕ) (uuid : Option ℕ) (state : LeaseState)
    (duration n : ℕ) (source : IsSource t mac n now ip) (small : ip < 2 ^ 32)
    (c : IsConsistent now t) where
  abbrev after : Tables
  after = create_or_update_lease_with_network mac ip uuid state duration n now t

  -- A holder in the new table is the device that was stored, or held the address before.
  after-Holds :
      (k a : ℕ) (m : Bytes)
      → Any (Holds now k a m) after.leases
      → ((m ≡ mac) × (k ≡ n) × (a ≡ ip)) ⊎ Any (Holds now k a m) t.leases
  unfolding create_or_update_lease_with_network
  after-Holds k a m h = elim (Any-upsert_lease _ t.leases h) [
    | inl p ↦ inl (
      sym p.by_mac,
      some-injective (sym p.here),
      some-injective (sym p.address ∙ parse_ipv4-format_ipv4 ip small),
    )
    | inr q ↦ inr q
  ]
    where
      some-injective : {x y : ℕ} → ◌≡◌ {A = Option ℕ} (some x) (some y) → x ≡ y
      some-injective p = cc

  holder-mac : (k a : ℕ) (m : Bytes) → (k ≡ n) × (a ≡ ip) → Any (Holds now k a m) t.leases → m ≡ mac
  holder-mac k a m (net, addr) h = source-Holds t now n ip mac m c source (
      subst (λ z. Any (Holds now n z m) t.leases) addr
        (subst (λ z. Any (Holds now z a m) t.leases) net h))

  stored-one_holder :
      (k a : ℕ) (m m' : Bytes)
      → Any (Holds now k a m) after.leases
      → Any (Holds now k a m') after.leases
      → m ≡ m'
  stored-one_holder k a m m' p q = go (after-Holds k a m p) (after-Holds k a m' q)
    where
      go :
          ((m ≡ mac) × (k ≡ n) × (a ≡ ip)) ⊎ Any (Holds now k a m) t.leases
          → ((m' ≡ mac) × (k ≡ n) × (a ≡ ip)) ⊎ Any (Holds now k a m') t.leases
          → m ≡ m'
      go (inl (e, _, _)) (inl (f, _, _)) = e ∙ sym f
      go (inl (e, net, addr)) (inr q) = e ∙ sym (holder-mac k a m' (net, addr) q)
      go (inr p) (inl (f, net, addr)) = holder-mac k a m (net, addr) p ∙ sym f
      go (inr p) (inr q) = c.one_holder k a m m' p q

  stored-reserved :
      (k a : ℕ) (m m' : Bytes)
      → Any (Holds now k a m) after.leases
      → Any (Reserves k a m') t.reservations
      → m ≡ m'
  stored-reserved k a m m' p q = elim (after-Holds k a m p) [
    | inl (e, net, addr) ↦
        e
        ∙ sym (
            source-Reserves t now n ip mac m' c source (
              subst (λ z. Any (Reserves n z m') t.reservations) addr
                (subst (λ z. Any (Reserves z a m') t.reservations) net q)))
    | inr old ↦ c.reserved k a m m' old q
  ]

  stored-IsConsistent : IsConsistent now after
  unfolding create_or_update_lease_with_network
  stored-IsConsistent = record {
    one_holder = stored-one_holder;
    reserved = stored-reserved;
    one_reservation = c.one_reservation;
  }

-- No change breaks the consistency of the table.
pub Change-IsConsistent :
    (now : ℕ) (t u : Tables) → Change now t u → IsConsistent now t → IsConsistent now u
unfolding delete_expired_leases
Change-IsConsistent now t _ same c = c
Change-IsConsistent now t _ (stored mac ip uuid state duration n source small) c =
    stored-IsConsistent now t mac ip uuid state duration n source small c
Change-IsConsistent now t _ (marked mac state) c = record {
  one_holder = λ n a m m' p q. c.one_holder n a m m' (before n a m p) (before n a m' q);
  reserved = λ n a m m' p q. c.reserved n a m m' (before n a m p) q;
  one_reservation = c.one_reservation;
}
  where
    before :
        (n a : ℕ) (m : Bytes)
        → Any (Holds now n a m) (map (set_state mac state) t.leases)
        → Any (Holds now n a m) t.leases
    before n a m h =
        Any-map_back (set_state mac state) t.leases (λ l. set_state-Holds now n a m mac state l) h
Change-IsConsistent now t _ pruned c = record {
  one_holder = λ n a m m' p q.
      c.one_holder n a m m' (Any-filter live t.leases p) (Any-filter live t.leases q);
  reserved = λ n a m m' p q. c.reserved n a m m' (Any-filter live t.leases p) q;
  one_reservation = c.one_reservation;
}
  where
    live : Lease → Bool
    live l = not (is_expired now l)
