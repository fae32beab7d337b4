-- ===== src/Lifecycle/Transitions.antt =====
-- lifecycle/mod.rs: how the table of allowed transitions, the kinds of transition and the names in
-- the database fit together.
use rack_director.Prelude.{◌≡◌, ◌≢◌, refl, ◌↔◌, true, is_some, arith, str_eq}
use rack_director.Plans.{
  PlanStatus, pending, running, success, failed, cancelled, status_of_string, string_of_status,
}
use rack_director.Lifecycle.{
  DeviceLifecycle, new, unprovisioned, provisioned, removed, broken, TransitionType, discover,
  provision, deprovision, remove, repair, lifecycle_of_string, string_of_lifecycle,
  transition_of_string, string_of_transition, is_transition_allowed, get_transition_type,
}

lifecycle_read_back : (s : DeviceLifecycle) → lifecycle_of_string (string_of_lifecycle s) ≡ s
unfolding lifecycle_of_string string_of_lifecycle str_eq
lifecycle_read_back new = refl
lifecycle_read_back unprovisioned = refl
lifecycle_read_back provisioned = refl
lifecycle_read_back removed = refl
lifecycle_read_back broken = refl

transition_read_back : (t : TransitionType) → transition_of_string (string_of_transition t) ≡ t
unfolding transition_of_string string_of_transition str_eq
transition_read_back discover = refl
transition_read_back provision = refl
transition_read_back deprovision = refl
transition_read_back remove = refl
transition_read_back repair = refl

status_read_back : (s : PlanStatus) → status_of_string (string_of_status s) ≡ s
unfolding status_of_string string_of_status str_eq
status_read_back pending = refl
status_read_back running = refl
status_read_back success = refl
status_read_back failed = refl
status_read_back cancelled = refl

-- A state of a device, a kind of transition and a status of a plan are read back from the names that
-- the database holds for them.
names_read_back :
    ((s : DeviceLifecycle) → lifecycle_of_string (string_of_lifecycle s) ≡ s)
    × ((t : TransitionType) → transition_of_string (string_of_transition t) ≡ t)
    × ((s : PlanStatus) → status_of_string (string_of_status s) ≡ s)
names_read_back = (lifecycle_read_back, transition_read_back, status_read_back)

-- A transition has a kind exactly when it is allowed and its target is not `broken`.
pub get_transition_type-allowed :
    (from to : DeviceLifecycle)
    → (is_some (get_transition_type from to) ≡ true)
      ↔ ((is_transition_allowed from to ≡ true) × (to ≢ broken))
unfolding get_transition_type is_transition_allowed
get_transition_type-allowed from to = ground arith
