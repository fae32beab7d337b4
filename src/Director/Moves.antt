-- ===== src/Director/Moves.antt =====
-- director/mod.rs, lifecycle/mod.rs: what the operations do to the lifecycles and the transitions,
-- as a relation, and the invariant that it keeps.
pub mod Kept
use rack_director.Prelude.{
  ℕ, suc, ◌<◌, ◌≤◌, ◌≡◌, ◌≢◌, ◌⊎◌, inl, inr, Bool, true, false, Bool-cases, Option, none, some,
  arith, ◌==◌, ==_iff, if◌then◌else◌, refl, sym, ap, subst, Bytes, ◌∙◌,
}
use rack_director.Lifecycle.{
  DeviceLifecycle, new, unprovisioned, provisioned, removed, broken, LifecycleTransition,
  new_transition, is_transition_allowed,
}
use rack_director.Plans.{Plan}
use rack_director.Database.{
  Table, Database, Device, put, get_device_lifecycle, update_device_lifecycle, create_transition,
  get_active_transition_for_device, closed, set_transition, of_open_transition, set_lifecycle,
  lifecycle_of,
}
use rack_director.Database.Queries.{newest_below-missed}
use rack_director.Director.{or_new}

unfoldable pub lifecycle_at : Database → ℕ → DeviceLifecycle
unfolding get_device_lifecycle
lifecycle_at db device_uuid = or_new (get_device_lifecycle db device_uuid)

-- What an operation may do: nothing but to the plans, whose next id never falls; open an allowed transition for a device that
-- has none open; or close an open one, with its target or `broken` as the device's new state.
pub data Move (db : Database) : Database → Type 0 where
  rests :
      (plans : Table Plan)
      → db.plans.next_id ≤ plans.next_id
      → Move db (record db { plans = plans })
  opens :
      (plans : Table Plan) (d plan_id now : ℕ) (to : DeviceLifecycle)
      → get_active_transition_for_device db d ≡ none
      → is_transition_allowed (lifecycle_at db d) to ≡ true
      → plan_id < plans.next_id
      → db.plans.next_id ≤ plans.next_id
      → Move db
          (record (create_transition db
            (new_transition d (lifecycle_at db d) to (some plan_id))
            now).0 { plans = plans })
  closes :
      (plans : Table Plan) (i : ℕ) (t : LifecycleTransition) (s : DeviceLifecycle)
      (succeeded : Bool) (message : Option Bytes) (now : ℕ)
      → db.transitions.rows i ≡ some t
      → t.success ≡ none
      → (s ≡ t.to_state) ⊎ (s ≡ broken)
      → db.plans.next_id ≤ plans.next_id
      → Move db
          (record (update_device_lifecycle
            (set_transition db i (closed succeeded message now t))
            t.device_uuid
            s) { plans = plans })

-- The transitions name plans whose ids are given out.
pub record IsLinked (db : Database) : Type 0 where
  pub has_plans :
      (i : ℕ) (t : LifecycleTransition)
      → db.transitions.rows i ≡ some t
      → (k : ℕ) → t.plan_id ≡ some k
      → k < db.plans.next_id

-- An open transition is allowed, starts from the state the device is in, and is the device's only one.
pub record IsSound (db : Database) : Type 0 where
  pub is_bounded :
      (i : ℕ) (t : LifecycleTransition)
      → db.transitions.rows i ≡ some t
      → i < db.transitions.next_id
  pub is_allowed :
      (i : ℕ) (t : LifecycleTransition)
      → db.transitions.rows i ≡ some t
      → t.success ≡ none
      → (is_transition_allowed t.from_state t.to_state ≡ true)
        × (lifecycle_at db t.device_uuid ≡ t.from_state)
  pub is_single :
      (i j : ℕ) (t u : LifecycleTransition)
      → db.transitions.rows i ≡ some t
      → db.transitions.rows j ≡ some u
      → t.success ≡ none
      → u.success ≡ none
      → t.device_uuid ≡ u.device_uuid
      → i ≡ j

pub some≢none : {A : Type 0} {a : A} → some a ≢ none
some≢none h = cc

pub put-cases :
    {A : Type 0} (i : ℕ) (a : A) (rows : ℕ → Option A) (k : ℕ) (b : A)
    → put i a rows k ≡ some b
    → ((k ≡ i) × (a ≡ b)) ⊎ ((k ≢ i) × (rows k ≡ some b))
put-cases i a rows k b h = ground arith

-- The target of an allowed transition may be replaced by `broken`, if the device is not broken yet.
pub allowed-broken :
    (s t : DeviceLifecycle)
    → is_transition_allowed s t ≡ true
    → (s ≡ broken) ⊎ (is_transition_allowed s broken ≡ true)
unfolding is_transition_allowed
allowed-broken new t h = inr refl
allowed-broken unprovisioned t h = inr refl
allowed-broken provisioned t h = inr refl
allowed-broken removed t h = cc
allowed-broken broken t h = inl refl

pub target-is_transition_allowed :
    (from to s : DeviceLifecycle)
    → is_transition_allowed from to ≡ true
    → (s ≡ to) ⊎ (s ≡ broken)
    → (s ≡ from) ⊎ (is_transition_allowed from s ≡ true)
target-is_transition_allowed from to s h (inl e) = inr (ap (is_transition_allowed from) e ∙ h)
target-is_transition_allowed from to s h (inr e) = elim (allowed-broken from to h) [
  | inl already ↦ inl (e ∙ sym already)
  | inr allowed ↦ inr (ap (is_transition_allowed from) e ∙ allowed)
]

pub allowed-transport :
    {a b c e : DeviceLifecycle}
    → a ≡ b
    → c ≡ e
    → is_transition_allowed b e ≡ true
    → is_transition_allowed a c ≡ true
allowed-transport p q h = cc

pub set_lifecycle-cases :
    (s : DeviceLifecycle) (v : Option Device)
    → (or_new (lifecycle_of (set_lifecycle s v)) ≡ or_new (lifecycle_of v))
      ⊎ (or_new (lifecycle_of (set_lifecycle s v)) ≡ s)
set_lifecycle-cases s none = inl refl
set_lifecycle-cases s (some v) = inr refl

pub set_other :
    (b : Bool) (s : DeviceLifecycle) (v : Option Device)
    → b ≡ false
    → (if b then set_lifecycle s v else v) ≡ v
set_other true s v h = cc
set_other false s v h = refl

pub set_same :
    (b : Bool) (s : DeviceLifecycle) (v : Option Device)
    → b ≡ true
    → (if b then set_lifecycle s v else v) ≡ set_lifecycle s v
set_same true s v h = refl
set_same false s v h = cc

-- A device's new state is its old one, or the one that it is given.
pub update_device_lifecycle-cases :
    (db : Database) (u d : ℕ) (s : DeviceLifecycle)
    → (lifecycle_at (update_device_lifecycle db u s) d ≡ lifecycle_at db d)
      ⊎ ((d ≡ u) × (lifecycle_at (update_device_lifecycle db u s) d ≡ s))
unfolding lifecycle_at update_device_lifecycle
update_device_lifecycle-cases db u d s = elim (Bool-cases (d == u)) [
  | inr e ↦ inl (ap (λ v. or_new (lifecycle_of v)) (set_other (d == u) s (db.devices d) e))
  | inl e ↦
      let here = ap (λ v. or_new (lifecycle_of v)) (set_same (d == u) s (db.devices d) e) in
      elim (set_lifecycle-cases s (db.devices d)) [
        | inl kept ↦ inl (here ∙ kept)
        | inr moved ↦ inr ((==_iff d u).0 e, here ∙ moved)
      ]
]

-- Along a move, the state of a device stays or takes an allowed transition.
pub Move-is_transition_allowed :
    {db next : Database}
    → IsSound db
    → Move db next
    → (d : ℕ)
    → (lifecycle_at next d ≡ lifecycle_at db d)
      ⊎ (is_transition_allowed (lifecycle_at db d) (lifecycle_at next d) ≡ true)
unfolding lifecycle_at create_transition update_device_lifecycle
Move-is_transition_allowed sound (rests plans grows) d = inl refl
Move-is_transition_allowed sound (opens plans u plan_id now to none_open allowed made grows) d =
    inl refl
Move-is_transition_allowed {db} sound
      (closes plans i t s succeeded message now row is_open target grows) d =
    elim (update_device_lifecycle-cases (set_transition db i (closed succeeded message now t))
      t.device_uuid d s) [
        | inl kept ↦ inl kept
        | inr (same, moved) ↦
            let (allowed, at) = sound.is_allowed i t row is_open in
            let from : lifecycle_at db d ≡ t.from_state = ap (lifecycle_at db) same ∙ at in
            elim (target-is_transition_allowed t.from_state t.to_state s allowed target) [
              | inl e ↦ inl (moved ∙ e ∙ sym from)
              | inr e ↦ inr (allowed-transport from moved e)
            ]
      ]
