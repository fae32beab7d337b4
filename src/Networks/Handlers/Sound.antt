-- ===== src/Networks/Handlers/Sound.antt =====
-- http/ui/networks.rs: what holds of the networks that are stored.
use rack_director.Prelude.{
  ℕ, ◌<◌, ◌≡◌, ◌≢◌, refl, sym, ◌∙◌, ap, subst, Bool, true, false, Option, none, some, List, [], ◌∷◌,
  Bytes, Any, head_has, tail_has, find, if◌then◌else◌, str_eq, str_eq_iff,
}
use rack_director.Dhcp.Store.{DhcpNetwork, Tables, is_text}
use rack_director.Networks.Store.{get_network_by_name, get_network_by_relay_string, is_local}
use rack_director.Networks.Requests.{relay_for_check}
use rack_director.Networks.Requests.Accepted.{IsName, Fits, AreServers, IsDuration, IsRelay}

-- A network whose texts the DHCP server can read.
pub record IsServable (n : DhcpNetwork) : Type 0 where
  pub name : IsName n.name
  pub subnet : Fits n.subnet n.gateway
  pub dns_servers : AreServers n.dns_servers
  pub lease_duration : IsDuration n.lease_duration
  pub relay : IsRelay n.relay_agent_address

abbrev pub Mem : DhcpNetwork → List DhcpNetwork → Type 0
Mem a ns = Any (λ x. x ≡ a) ns

abbrev pub relay_key : DhcpNetwork → Option Bytes
relay_key n = relay_for_check n.relay_agent_address

-- Every network can be served, and no two networks have an id, a name or a relay agent in common;
-- networks without a relay agent count as having the same. Ids are below `next`.
pub record IsSound (next : ℕ) (ns : List DhcpNetwork) : Type 0 where
  pub each : (a : DhcpNetwork) → Mem a ns → IsServable a
  pub below : (a : DhcpNetwork) → Mem a ns → a.id < next
  pub ids : (a b : DhcpNetwork) → Mem a ns → Mem b ns → a.id ≡ b.id → a ≡ b
  pub names : (a b : DhcpNetwork) → Mem a ns → Mem b ns → a.name ≡ b.name → a.id ≡ b.id
  pub relays : (a b : DhcpNetwork) → Mem a ns → Mem b ns → relay_key a ≡ relay_key b → a.id ≡ b.id

pub find-Mem :
    (p : DhcpNetwork → Bool) (ns : List DhcpNetwork) (e : DhcpNetwork)
    → find p ns ≡ some e
    → Mem e ns × (p e ≡ true)
find-Mem p [] e h = cc
find-Mem p (x ∷ xs) e h = go (p x) refl h (λ k. find-Mem p xs e k)
  where
    go :
        (b : Bool)
        → p x ≡ b
        → (if b then some x else find p xs) ≡ some e
        → (find p xs ≡ some e → Mem e xs × (p e ≡ true))
        → Mem e (x ∷ xs) × (p e ≡ true)
    go true q h rest = let same : x ≡ e = cc in (head_has same, subst (λ z. p z ≡ true) same q)
    go false q h rest = let (m, t) = rest h in (tail_has m, t)

pub find-none :
    (p : DhcpNetwork → Bool) (ns : List DhcpNetwork) (a : DhcpNetwork)
    → find p ns ≡ none
    → Mem a ns
    → p a ≡ false
find-none p [] a h m = elim m [ ]
find-none p (x ∷ xs) a h m = go (p x) refl h m (λ k l. find-none p xs a k l)
  where
    go :
        (b : Bool)
        → p x ≡ b
        → (if b then some x else find p xs) ≡ none
        → Mem a (x ∷ xs)
        → (find p xs ≡ none → Mem a xs → p a ≡ false)
        → p a ≡ false
    go true q h m rest = cc
    go false q h (head_has same) rest = subst (λ z. p z ≡ false) same q
    go false q h (tail_has m) rest = rest h m

-- Whether a relay agent is the one looked for, or none if there is none.
abbrev matches : Option Bytes → Option Bytes → Bool
matches none o = is_local o
matches (some r) o = is_text o r

by_relay-eq :
    (t : Tables) (o : Option Bytes)
    → get_network_by_relay_string t (relay_for_check o)
      ≡ find (λ n. matches (relay_for_check o) n.relay_agent_address) t.networks
unfolding get_network_by_relay_string
by_relay-eq t none = refl
by_relay-eq t (some []) = refl
by_relay-eq t (some (x ∷ xs)) = refl

text-key :
    (o : Option Bytes) (x : ℕ) (xs : Bytes)
    → is_text o (x ∷ xs) ≡ true
    → relay_for_check o ≡ some (x ∷ xs)
unfolding str_eq
text-key none x xs h = cc
text-key (some []) x xs h = cc
text-key (some (y ∷ ys)) x xs h = ap some ((str_eq_iff (y ∷ ys) (x ∷ xs)).0 h)

local-key : (o : Option Bytes) → is_local o ≡ true → relay_for_check o ≡ none
local-key none h = refl
local-key (some []) h = refl
local-key (some (y ∷ ys)) h = cc

matches-key :
    (o a : Option Bytes)
    → matches (relay_for_check o) a ≡ true
    → relay_for_check a ≡ relay_for_check o
matches-key none a h = local-key a h
matches-key (some []) a h = local-key a h
matches-key (some (x ∷ xs)) a h = text-key a x xs h

key-local : (a : Option Bytes) → relay_for_check a ≡ none → is_local a ≡ true
key-local none h = refl
key-local (some []) h = refl
key-local (some (y ∷ ys)) h = cc

key-text :
    (a : Option Bytes) (x : ℕ) (xs : Bytes)
    → relay_for_check a ≡ some (x ∷ xs)
    → is_text a (x ∷ xs) ≡ true
key-text none x xs h = cc
key-text (some []) x xs h = cc
key-text (some (y ∷ ys)) x xs h = (str_eq_iff (y ∷ ys) (x ∷ xs)).1 cc

key-matches :
    (o a : Option Bytes)
    → relay_for_check a ≡ relay_for_check o
    → matches (relay_for_check o) a ≡ true
key-matches none a h = key-local a h
key-matches (some []) a h = key-local a h
key-matches (some (x ∷ xs)) a h = key-text a x xs h

-- A network that the lookup finds has the relay agent, and without one, no network has.
pub by_relay-Mem :
    (t : Tables) (o : Option Bytes) (e : DhcpNetwork)
    → get_network_by_relay_string t (relay_for_check o) ≡ some e
    → Mem e t.networks × (relay_key e ≡ relay_for_check o)
by_relay-Mem t o e h =
    let (m, found) = find-Mem _ t.networks e (sym (by_relay-eq t o) ∙ h) in
    (m, matches-key o e.relay_agent_address found)

pub by_relay-none :
    (t : Tables) (o : Option Bytes) (a : DhcpNetwork)
    → get_network_by_relay_string t (relay_for_check o) ≡ none
    → Mem a t.networks
    → relay_key a ≢ relay_for_check o
by_relay-none t o a h m same =
    let missed = find-none _ t.networks a (sym (by_relay-eq t o) ∙ h) m in
    let found = key-matches o a.relay_agent_address same in cc

pub by_name-Mem :
    (t : Tables) (name : Bytes) (e : DhcpNetwork)
    → get_network_by_name t name ≡ some e
    → Mem e t.networks × (e.name ≡ name)
unfolding get_network_by_name
by_name-Mem t name e h =
    let (m, found) = find-Mem _ t.networks e h in (m, (str_eq_iff e.name name).0 found)

pub by_name-none :
    (t : Tables) (name : Bytes) (a : DhcpNetwork)
    → get_network_by_name t name ≡ none
    → Mem a t.networks
    → a.name ≢ name
unfolding get_network_by_name
by_name-none t name a h m same =
    let missed = find-none _ t.networks a h m in let found = (str_eq_iff a.name name).1 same in cc
