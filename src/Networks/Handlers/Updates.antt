-- ===== src/Networks/Handlers/Updates.antt =====
-- http/ui/networks.rs: a change of a network keeps the networks sound.
use rack_director.Prelude.{
  ℕ, ◌<◌, ◌≡◌, ◌⊎◌, inl, inr, refl, sym, ◌∙◌, ap, subst, Bool, true, false, Option, none, some,
  List, [], ◌∷◌, Bytes, head_has, tail_has, find, map, if◌then◌else◌, ◌==◌, ==_iff, Bool-cases,
  is_empty,
}
use rack_director.Dhcp.Store.{DhcpNetwork, Tables}
use rack_director.Networks.Store.{
  get_network, get_network_by_name, get_network_by_relay_string, Columns, updated, unwrap_or,
}
use rack_director.Networks.Requests.{UpdateNetworkRequest, relay_for_check, is_other}
use rack_director.Networks.Requests.Accepted.{IsName, IsRelay}
use rack_director.Networks.Requests.Changed.{Given, NameIsFree, RelayIsFree}
use rack_director.Networks.Handlers.{relay_column}
use rack_director.Networks.Handlers.Sound.{
  IsServable, IsSound, Mem, relay_key, find-Mem, find-none, by_name-Mem, by_name-none, by_relay-Mem,
  by_relay-none,
}

Mem-map :
    (f : DhcpNetwork → DhcpNetwork) (ns : List DhcpNetwork) (y : DhcpNetwork)
    → Mem y (map f ns)
    → (x : DhcpNetwork) × Mem x ns × (f x ≡ y)
Mem-map f [] y m = elim m [ ]
Mem-map f (x ∷ xs) y (head_has same) = (x, head_has refl, same)
Mem-map f (x ∷ xs) y (tail_has m) = let (x', m', same) = Mem-map f xs y m in (x', tail_has m', same)

-- A change of every row that keeps the ids.
module _ (next : ℕ) (ns : List DhcpNetwork) (f : DhcpNetwork → DhcpNetwork) (s : IsSound next ns)
    (same_id : (x : DhcpNetwork) → (f x).id ≡ x.id)
    (each : (x : DhcpNetwork) → Mem x ns → IsServable (f x))
    (names : (x y : DhcpNetwork) → Mem x ns → Mem y ns → (f x).name ≡ (f y).name → x.id ≡ y.id)
    (relays : (x y : DhcpNetwork)
      → Mem x ns
      → Mem y ns
      → relay_key (f x) ≡ relay_key (f y)
      → x.id ≡ y.id) where
  abbrev id_of : DhcpNetwork → ℕ
  id_of n = n.id

  abbrev name_of : DhcpNetwork → Bytes
  name_of n = n.name

  back : (x a : DhcpNetwork) → f x ≡ a → x.id ≡ a.id
  back x a same = sym (same_id x) ∙ ap id_of same

  pub IsSound-map : IsSound next (map f ns)
  IsSound-map = record {
    each = λ a m. let (x, mx, same) = Mem-map f ns a m in subst IsServable same (each x mx);
    below = λ a m.
        let (x, mx, same) = Mem-map f ns a m in
        subst (λ n. n < next) (back x a same) (s.below x mx);
    ids = λ a b ma mb e.
        let (x, mx, p) = Mem-map f ns a ma in
        let (y, my, q) = Mem-map f ns b mb in
        let same_row : x ≡ y = s.ids x y mx my (back x a p ∙ e ∙ sym (back y b q)) in
        sym p ∙ ap f same_row ∙ q;
    names = λ a b ma mb e.
        let (x, mx, p) = Mem-map f ns a ma in
        let (y, my, q) = Mem-map f ns b mb in
        sym (back x a p) ∙ names x y mx my (ap name_of p ∙ e ∙ sym (ap name_of q)) ∙ back y b q;
    relays = λ a b ma mb e.
        let (x, mx, p) = Mem-map f ns a ma in
        let (y, my, q) = Mem-map f ns b mb in
        sym (back x a p)
        ∙ relays x y mx my (ap relay_key p ∙ e ∙ sym (ap relay_key q))
        ∙ back y b q;
  }

-- The row with the new values of the columns.
abbrev pub changed : Columns → DhcpNetwork → DhcpNetwork
changed c n = record {
  id = n.id;
  name = unwrap_or c.name n.name;
  subnet = unwrap_or c.subnet n.subnet;
  gateway = unwrap_or c.gateway n.gateway;
  dns_servers = unwrap_or c.dns_servers n.dns_servers;
  lease_duration = unwrap_or c.lease_duration n.lease_duration;
  relay_agent_address = unwrap_or c.relay_agent_address n.relay_agent_address;
}

pub updated-cases :
    (id : ℕ) (c : Columns) (x : DhcpNetwork)
    → ((x.id ≡ id) × (updated id c x ≡ changed c x)) ⊎ (updated id c x ≡ x)
unfolding updated
updated-cases id c x = go (x.id == id) refl
  where
    go :
        (b : Bool)
        → (x.id == id) ≡ b
        → ((x.id ≡ id) × ((if b then changed c x else x) ≡ changed c x))
          ⊎ ((if b then changed c x else x) ≡ x)
    go true e = inl ((==_iff x.id id).0 e, refl)
    go false e = inr refl

pub given_or :
    {A : Type 0} (P : A → Type 0) (o : Option A) (a : A) → Given P o → P a → P (unwrap_or o a)
given_or P none a g p = p
given_or P (some b) a g p = g

module _ (next : ℕ) (t : Tables) (s : IsSound next t.networks) (id : ℕ)
    (req : UpdateNetworkRequest) where
  -- A row with the id is the one that the lookup finds.
  pub found : (x : DhcpNetwork) → Mem x t.networks → x.id ≡ id → get_network t id ≡ some x
  unfolding get_network
  found x m e = go (find (λ n. n.id == id) t.networks) refl
    where
      go : (o : Option DhcpNetwork) → find (λ n. n.id == id) t.networks ≡ o → o ≡ some x
      go none h =
          let missed = find-none (λ n. n.id == id) t.networks x h m in
          let hit = (==_iff x.id id).1 e in cc
      go (some y) h =
          let (my, hit) = find-Mem (λ n. n.id == id) t.networks y h in
          ap some (s.ids y x my m ((==_iff y.id id).0 hit ∙ sym e))

  pub name_apart :
      (x y : DhcpNetwork) (o : Option Bytes)
      → Given (λ name. IsName name × NameIsFree t id name) o
      → x.id ≡ id
      → Mem x t.networks
      → Mem y t.networks
      → unwrap_or o x.name ≡ y.name
      → x.id ≡ y.id
  name_apart x y none g e mx my same = s.names x y mx my same
  name_apart x y (some name) (_, free) e mx my same = go (get_network_by_name t name) refl free
    where
      go :
          (o : Option DhcpNetwork)
          → get_network_by_name t name ≡ o
          → is_other id o ≡ false
          → x.id ≡ y.id
      go none h k = elim (by_name-none t name y h my (sym same)) [ ]
      go (some z) h k =
          let (mz, named) = by_name-Mem t name z h in
          let is_it : (z.id == id) ≡ true = elim (Bool-cases (z.id == id)) [
            | inl p ↦ p
            | inr p ↦ cc
          ] in
          e ∙ sym ((==_iff z.id id).0 is_it) ∙ s.names z y mz my (named ∙ same)

  column-key :
      (r : Bytes) → relay_for_check (if is_empty r then none else some r) ≡ relay_for_check (some r)
  column-key [] = refl
  column-key (x ∷ xs) = refl

  pub relay_apart :
      (x y : DhcpNetwork) (o : Option Bytes)
      → Given (λ r. IsRelay (some r) × RelayIsFree t id r) o
      → x.id ≡ id
      → Mem x t.networks
      → Mem y t.networks
      → relay_for_check (unwrap_or (relay_column o) x.relay_agent_address) ≡ relay_key y
      → x.id ≡ y.id
  relay_apart x y none g e mx my same = s.relays x y mx my same
  relay_apart x y (some r) (_, free) e mx my same =
      go (get_network_by_relay_string t (relay_for_check (some r))) refl free
    where
      go :
          (o : Option DhcpNetwork)
          → get_network_by_relay_string t (relay_for_check (some r)) ≡ o
          → is_other id o ≡ false
          → x.id ≡ y.id
      go none h k = elim (by_relay-none t (some r) y h my (sym same ∙ column-key r)) [ ]
      go (some z) h k =
          let (mz, relayed) = by_relay-Mem t (some r) z h in
          let is_it : (z.id == id) ≡ true = elim (Bool-cases (z.id == id)) [
            | inl p ↦ p
            | inr p ↦ cc
          ] in
          e
          ∙ sym ((==_iff z.id id).0 is_it)
          ∙ s.relays z y mz my (relayed ∙ sym (column-key r) ∙ same)
