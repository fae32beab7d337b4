-- ===== src/Dhcp/Leases/Sources.antt =====
-- dhcp/allocator.rs: an allowed address is held by no other device, nor reserved for one.
use rack_director.Prelude.{
  ℕ, ◌≤◌, arith, ◌≡◌, Bool, true, false, ◌&&◌, some, List, [], ◌∷◌, Bytes, Any, head_has, tail_has,
  refl, sym, subst, if◌then◌else◌, ◌==◌, str_eq, str_eq_iff, find, ==_iff,
}
use rack_director.Dhcp.Ipv4.{parse_ipv4}
use rack_director.Dhcp.Store.{
  Lease, StaticReservation, Tables, is_expired, has_mac, get_static_reservation, get_lease_by_mac,
}
use rack_director.Dhcp.Allocator.Sources.{IsSource, reserved, leased, pooled}
use rack_director.Dhcp.Allocator.Taken.{IsRunning, IsReservation}
use rack_director.Dhcp.Leases.Holders.{Holds, Reserves, IsConsistent, Any-map}

module _ {A : Type 0} (test : A → Bool) where
  find-some :
      (xs : List A) (x : A) → find test xs ≡ some x → Any (λ y. (y ≡ x) × (test x ≡ true)) xs
  find-some [] x h = cc
  find-some (y ∷ ys) x h = go (test y) refl h (find-some ys x)
    where
      go :
          (b : Bool)
          → test y ≡ b
          → (if b then some y else find test ys) ≡ some x
          → (find test ys ≡ some x → Any (λ y. (y ≡ x) × (test x ≡ true)) ys)
          → Any (λ y. (y ≡ x) × (test x ≡ true)) (y ∷ ys)
      go true e h rest = let is_x : y ≡ x = cc in head_has (is_x, subst (λ z. test z ≡ true) is_x e)
      go false e h rest = tail_has (rest h)

and-true : (x y : Bool) → (x && y) ≡ true → (x ≡ true) × (y ≡ true)
and-true true y h = (refl, h)
and-true false y h = cc

-- What the queries find is in the table.
reserved-Any :
    (t : Tables) (n a : ℕ) (mac : Bytes) (r : StaticReservation)
    → get_static_reservation t n mac ≡ some r
    → parse_ipv4 r.ip_address ≡ some a
    → Any (Reserves n a mac) t.reservations
unfolding get_static_reservation
reserved-Any t n a mac r h e =
    Any-map t.reservations (λ y q. subst (Reserves n a mac) (sym q.0) (this q.1))
      (find-some (λ r. r.network_id == n && str_eq r.mac_address mac) t.reservations r h)
  where
    this : (r.network_id == n && str_eq r.mac_address mac) ≡ true → Reserves n a mac r
    this q =
        let (here, mine) = and-true (r.network_id == n) (str_eq r.mac_address mac) q in
        record {
          for_mac = (str_eq_iff r.mac_address mac).0 mine;
          here = (==_iff r.network_id n).0 here;
          address = e;
        }

leased-Any :
    (t : Tables) (now n a : ℕ) (mac : Bytes) (l : Lease)
    → get_lease_by_mac t mac ≡ some l
    → now ≤ l.lease_end
    → l.network_id ≡ some n
    → parse_ipv4 l.ip_address ≡ some a
    → Any (Holds now n a mac) t.leases
unfolding get_lease_by_mac is_expired
leased-Any t now n a mac l h live here e =
    Any-map t.leases (λ y q. subst (Holds now n a mac) (sym q.0) (this q.1))
      (find-some (has_mac mac) t.leases l h)
  where
    this : has_mac mac l ≡ true → Holds now n a mac l
    this q = record {
      by_mac = (str_eq_iff l.mac_address mac).0 q;
      running = ground (arith, live);
      here = here;
      address = e;
    }

not_expired : (now : ℕ) (l : Lease) → is_expired now l ≡ false → now ≤ l.lease_end
unfolding is_expired
not_expired now l h = ground arith

-- No other device holds an allowed address, and none has it reserved.
module _ (t : Tables) (now n a : ℕ) (mac m : Bytes) (c : IsConsistent now t)
    (source : IsSource t mac n now a) where
  pub source-Holds : Any (Holds now n a m) t.leases → m ≡ mac
  source-Holds h = elim source [
    | reserved r found e ↦ c.reserved n a m mac h (reserved-Any t n a mac r found e)
    | leased l _ found live here e ↦
        c.one_holder n a m mac h (leased-Any t now n a mac l found live here e)
    | pooled _ _ _ free ↦ absurd (free.0 (Any-map t.leases holder h))
  ]
    where
      holder : (l : Lease) → Holds now n a m l → IsRunning n now a l
      holder l k = record {
        here = k.here;
        running = not_expired now l k.running;
        address = k.address;
      }

  pub source-Reserves : Any (Reserves n a m) t.reservations → m ≡ mac
  source-Reserves h = elim source [
    | reserved r found e ↦ c.one_reservation n a m mac h (reserved-Any t n a mac r found e)
    | leased l _ found live here e ↦
        sym (c.reserved n a mac m (leased-Any t now n a mac l found live here e) h)
    | pooled _ _ _ free ↦ absurd (free.1 (Any-map t.reservations reservation h))
  ]
    where
      reservation : (r : StaticReservation) → Reserves n a m r → IsReservation n a r
      reservation r k = record { here = k.here; address = k.address }
