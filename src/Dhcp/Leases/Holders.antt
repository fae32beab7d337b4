-- ===== src/Dhcp/Leases/Holders.antt =====
-- dhcp/store.rs: who holds an address, and who has it reserved.
use rack_director.Prelude.{
  ℕ, ◌≤◌, ◌≡◌, ◌⊎◌, inl, inr, Bool, true, false, some, List, [], ◌∷◌, Bytes, Any, head_has,
  tail_has, arith, if◌then◌else◌, map,
}
use rack_director.Dhcp.Ipv4.{parse_ipv4}
use rack_director.Dhcp.Store.{
  Lease, StaticReservation, Tables, is_expired, upsert_lease, has_mac, filter,
}

-- A running lease of the network gives the address to the device.
pub record Holds (now network_id a : ℕ) (mac : Bytes) (l : Lease) : Type 0 where
  pub by_mac : l.mac_address ≡ mac
  pub running : is_expired now l ≡ false
  pub here : l.network_id ≡ some network_id
  pub address : parse_ipv4 l.ip_address ≡ some a

pub record Reserves (network_id a : ℕ) (mac : Bytes) (r : StaticReservation) : Type 0 where
  pub for_mac : r.mac_address ≡ mac
  pub here : r.network_id ≡ network_id
  pub address : parse_ipv4 r.ip_address ≡ some a

-- In a network, no address is held by two devices, held by one and reserved for another, or
-- reserved for two.
pub record IsConsistent (now : ℕ) (t : Tables) : Type 0 where
  pub one_holder :
      (n a : ℕ) (m m' : Bytes)
      → Any (Holds now n a m) t.leases
      → Any (Holds now n a m') t.leases
      → m ≡ m'
  pub reserved :
      (n a : ℕ) (m m' : Bytes)
      → Any (Holds now n a m) t.leases
      → Any (Reserves n a m') t.reservations
      → m ≡ m'
  pub one_reservation :
      (n a : ℕ) (m m' : Bytes)
      → Any (Reserves n a m) t.reservations
      → Any (Reserves n a m') t.reservations
      → m ≡ m'

module _ {A : Type 0} {P Q : A → Type 0} where
  pub Any-map : (xs : List A) → ((x : A) → P x → Q x) → Any P xs → Any Q xs
  Any-map [] f h = elim h [ ]
  Any-map (x ∷ xs) f (head_has p) = head_has (f x p)
  Any-map (x ∷ xs) f (tail_has h) = tail_has (Any-map xs f h)

module _ {A : Type 0} {P : A → Type 0} where
  pub Any-map_back :
      (g : A → A) (xs : List A) → ((x : A) → P (g x) → P x) → Any P (map g xs) → Any P xs
  Any-map_back g [] f h = elim h [ ]
  Any-map_back g (x ∷ xs) f (head_has p) = head_has (f x p)
  Any-map_back g (x ∷ xs) f (tail_has h) = tail_has (Any-map_back g xs f h)

  pub Any-filter : (test : A → Bool) (xs : List A) → Any P (filter test xs) → Any P xs
  Any-filter test [] h = elim h [ ]
  Any-filter test (x ∷ xs) h = go (test x) h (Any-filter test xs)
    where
      go :
          (b : Bool)
          → Any P (if b then x ∷ filter test xs else filter test xs)
          → (Any P (filter test xs) → Any P xs)
          → Any P (x ∷ xs)
      go true (head_has p) later = head_has p
      go true (tail_has h) later = tail_has (later h)
      go false h later = tail_has (later h)

pub Any-upsert_lease :
    {P : Lease → Type 0} (l : Lease) (ls : List Lease) → Any P (upsert_lease l ls) → P l ⊎ Any P ls
unfolding upsert_lease
Any-upsert_lease l [] (head_has p) = inl p
Any-upsert_lease l [] (tail_has h) = elim h [ ]
Any-upsert_lease {P} l (x ∷ xs) h = go (has_mac l.mac_address x) h (Any-upsert_lease l xs)
  where
    go :
        (b : Bool)
        → Any P (if b then l ∷ xs else x ∷ upsert_lease l xs)
        → (Any P (upsert_lease l xs) → P l ⊎ Any P xs)
        → P l ⊎ Any P (x ∷ xs)
    go true (head_has p) later = inl p
    go true (tail_has h) later = inr (tail_has h)
    go false (head_has p) later = inr (head_has p)
    go false (tail_has h) later = elim (later h) [ inl p ↦ inl p | inr q ↦ inr (tail_has q) ]

running_before :
    (now now' : ℕ) (l : Lease) → now ≤ now' → is_expired now' l ≡ false → is_expired now l ≡ false
unfolding is_expired
running_before now now' l le h = ground arith

-- Time only takes holders away.
pub later-IsConsistent :
    (now now' : ℕ) (t : Tables) → now ≤ now' → IsConsistent now t → IsConsistent now' t
later-IsConsistent now now' t le c = record {
  one_holder = λ n a m m' p q. c.one_holder n a m m' (before n a m p) (before n a m' q);
  reserved = λ n a m m' p q. c.reserved n a m m' (before n a m p) q;
  one_reservation = c.one_reservation;
}
  where
    before :
        (n a : ℕ) (m : Bytes) → Any (Holds now' n a m) t.leases → Any (Holds now n a m) t.leases
    before n a m h =
        Any-map t.leases
          (λ l p. record {
            by_mac = p.by_mac;
            running = running_before now now' l le p.running;
            here = p.here;
            address = p.address;
          })
          h
