-- ===== src/Dhcp/Allocator/Taken.antt =====
-- dhcp/allocator.rs: the addresses that are taken, by the rows of the tables.
use rack_director.Prelude.{
  ℕ, ◌≤◌, ◌≡◌, ◌⊎◌, inl, inr, refl, subst, Bool, true, false, ◌&&◌, not, ◌||◌, Option, none, some,
  List, [], ◌∷◌, Bytes, Any, head_has, tail_has, arith, if◌then◌else◌, ◌==◌, ==_iff,
}
use rack_director.Dhcp.Ipv4.{parse_ipv4}
use rack_director.Dhcp.Store.{Lease, StaticReservation, Tables, is_expired, filter, is_network}
use rack_director.Dhcp.Allocator.{push, addresses, contains, active_ips, reserved_ips, is_taken}
use rack_director.Dhcp.Leases.Holders.{Any-map}

-- A lease of the network for the address, which ends now or later.
pub record IsRunning (network_id now a : ℕ) (l : Lease) : Type 0 where
  pub here : l.network_id ≡ some network_id
  pub running : now ≤ l.lease_end
  pub address : parse_ipv4 l.ip_address ≡ some a

pub record IsReservation (network_id a : ℕ) (r : StaticReservation) : Type 0 where
  pub here : r.network_id ≡ network_id
  pub address : parse_ipv4 r.ip_address ≡ some a

or-false : (x y : Bool) → (x || y) ≡ false → (x ≡ false) × (y ≡ false)
or-false true y h = cc
or-false false y h = (refl, h)

module _ {A : Type 0} (text : A → Bytes) (test : A → Bool) (a : ℕ) where
  abbrev Listed : A → Type 0
  Listed x = (test x ≡ true) × (parse_ipv4 (text x) ≡ some a)

  contains-Any : (xs : List A) → contains (addresses text (filter test xs)) a ≡ true → Any Listed xs
  contains-Any [] h = cc
  contains-Any (x ∷ xs) h = go (test x) refl h (contains-Any xs)
    where
      rest : List ℕ
      rest = addresses text (filter test xs)

      here :
          test x ≡ true
          → (p : Option ℕ) → parse_ipv4 (text x) ≡ p
          → contains (push p rest) a ≡ true
          → (contains rest a ≡ true → Any Listed xs)
          → Any Listed (x ∷ xs)
      here t none e h later = tail_has (later h)
      here t (some b) e h later = first (b == a) refl h
        where
          first : (c : Bool) → (b == a) ≡ c → (c || contains rest a) ≡ true → Any Listed (x ∷ xs)
          first true q k =
              head_has (t, subst (λ z. parse_ipv4 (text x) ≡ some z) ((==_iff b a).0 q) e)
          first false q k = tail_has (later k)

      go :
          (b : Bool)
          → test x ≡ b
          → contains (addresses text (if b then x ∷ filter test xs else filter test xs)) a ≡ true
          → (contains rest a ≡ true → Any Listed xs)
          → Any Listed (x ∷ xs)
      go true t h later = here t (parse_ipv4 (text x)) refl h later
      go false t h later = tail_has (later h)

  Any-contains : (xs : List A) → Any Listed xs → contains (addresses text (filter test xs)) a ≡ true
  Any-contains [] h = elim h [ ]
  Any-contains (x ∷ xs) (head_has (t, e)) = rw t (ground (arith, e))
  Any-contains (x ∷ xs) (tail_has h) = ground (arith, Any-contains xs h)

module _ (t : Tables) (network_id now a : ℕ) where
  abbrev is_active : Lease → Bool
  is_active l = is_network network_id l.network_id && not (is_expired now l)

  active-IsRunning :
      (l : Lease)
      → is_active l ≡ true
      → parse_ipv4 l.ip_address ≡ some a
      → IsRunning network_id now a l
  unfolding is_expired
  active-IsRunning l h e = go l.network_id refl h
    where
      go :
          (n : Option ℕ)
          → l.network_id ≡ n
          → (is_network network_id n && not (is_expired now l)) ≡ true
          → IsRunning network_id now a l
      go none q k = cc
      go (some n) q k = record {
        here = subst (λ z. l.network_id ≡ some z) (ground arith) q;
        running = ground arith;
        address = e;
      }

  IsRunning-active : (l : Lease) → IsRunning network_id now a l → is_active l ≡ true
  unfolding is_expired
  IsRunning-active l r = rw r.here (ground (arith, r.running))

  listed-IsRunning :
      contains (active_ips t network_id now) a ≡ true → Any (IsRunning network_id now a) t.leases
  unfolding active_ips
  listed-IsRunning h =
      Any-map t.leases (λ l p. active-IsRunning l p.0 p.1)
        (contains-Any (λ l. l.ip_address) is_active a t.leases h)

  IsRunning-listed :
      Any (IsRunning network_id now a) t.leases → contains (active_ips t network_id now) a ≡ true
  unfolding active_ips
  IsRunning-listed h =
      Any-contains (λ l. l.ip_address) is_active a t.leases
        (Any-map t.leases (λ l r. (IsRunning-active l r, r.address)) h)

  listed-IsReservation :
      contains (reserved_ips t network_id) a ≡ true
      → Any (IsReservation network_id a) t.reservations
  unfolding reserved_ips
  listed-IsReservation h =
      Any-map t.reservations
        (λ r p. record { here = (==_iff r.network_id network_id).0 p.0; address = p.1 })
        (contains-Any (λ r. r.ip_address) (λ r. r.network_id == network_id) a t.reservations h)

  IsReservation-listed :
      Any (IsReservation network_id a) t.reservations
      → contains (reserved_ips t network_id) a ≡ true
  unfolding reserved_ips
  IsReservation-listed h =
      Any-contains (λ r. r.ip_address) (λ r. r.network_id == network_id) a t.reservations
        (Any-map t.reservations (λ r k. ((==_iff r.network_id network_id).1 k.here, k.address)) h)

  -- No running lease of the network and no reservation in it has the address.
  abbrev pub IsFree : Type 0
  IsFree =
      (¬ Any (IsRunning network_id now a) t.leases)
      × (¬ Any (IsReservation network_id a) t.reservations)

  abbrev pub IsInUse : Type 0
  IsInUse =
      Any (IsRunning network_id now a) t.leases ⊎ Any (IsReservation network_id a) t.reservations

  true-false : {x : Bool} → x ≡ true → x ≡ false → ⊥
  true-false p q = cc

  pub not_taken-IsFree : is_taken t network_id now a ≡ false → IsFree
  unfolding is_taken
  not_taken-IsFree h =
      let (p, q) =
        or-false (contains (active_ips t network_id now) a) (contains (reserved_ips t network_id) a)
          h in
      (λ k. true-false (IsRunning-listed k) p, λ k. true-false (IsReservation-listed k) q)

  pub taken-IsInUse : is_taken t network_id now a ≡ true → IsInUse
  unfolding is_taken
  taken-IsInUse h = go (contains (active_ips t network_id now) a) refl h
    where
      go :
          (b : Bool)
          → contains (active_ips t network_id now) a ≡ b
          → (b || contains (reserved_ips t network_id) a) ≡ true
          → IsInUse
      go true e k = inl (listed-IsRunning e)
      go false e k = inr (listed-IsReservation k)
