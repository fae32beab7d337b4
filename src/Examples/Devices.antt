-- ===== src/Examples/Devices.antt =====
-- A device of director/mod.rs that is discovered, cancelled and removed.
use rack_director.Prelude.{
  ℕ, ◌≡◌, ◌≢◌, ◌↔◌, ◌⊎◌, refl, none, some, List, [], ◌∷◌, codes, true, false, get_elem?, is_some,
  ◌<◌, ◌==◌, if◌then◌else◌,
}
use rack_director.Plans.{
  Plan, pending, running, success, cancelled, new_plan, get_current_action, is_active,
}
use rack_director.Plans.Actions.{Action, discover_hardware, configure_bmc}
use rack_director.Plans.Progress.{reports, started, actions_in_order}
use rack_director.Lifecycle.{
  DeviceLifecycle, new, unprovisioned, broken, LifecycleTransition, new_transition,
  is_transition_allowed, get_transition_type, get_plan_stub_for_transition,
}
use rack_director.Lifecycle.Transitions.{get_transition_type-allowed}
use rack_director.Database.{
  Database, get_active_plan_for_device, get_transition_by_plan_id, first_below, newest_below,
  get_active_transition_for_device, get_device_lifecycle, create_plan, insert_plan,
  create_transition, cancel_active_plan_for_device, complete_transition, update_device_lifecycle,
}
use rack_director.Director.{
  mark_action_success, mark_action_failed, apply_success, start_lifecycle_transition,
  cancel_active_transition,
}
use rack_director.Director.Moves.{lifecycle_at, IsSound}
use rack_director.Director.Runs.{
  Request, transition_started, transition_cancelled, action_succeeded, serve, serve_all,
  serve_all-IsSound, serve-is_transition_allowed,
}
use rack_director.Director.Races.{stale_reports, late_success}

-- Device 7 is in the given state, and nothing has happened yet.
abbrev pub fresh : DeviceLifecycle → Database
fresh s = record {
  plans = record { rows = λ _. none; next_id = 1 };
  transitions = record { rows = λ _. none; next_id = 1 };
  devices = λ d. if d == 7 then some (record { lifecycle = s; role_id = none }) else none;
}

pub none≢some : {A : Type 0} {a : A} → none ≢ some a
none≢some h = cc

fresh-IsSound : (s : DeviceLifecycle) → IsSound (fresh s)
fresh-IsSound s = record {
  is_bounded = λ i t row. elim (none≢some row) [ ];
  is_allowed = λ i t row is_open. elim (none≢some row) [ ];
  is_single = λ i j t u row_t row_u open_t open_u same. elim (none≢some row_t) [ ];
}

abbrev requests : List Request
requests =
    transition_started 7 unprovisioned 10
    ∷ (action_succeeded 7 none 11 ∷ (transition_cancelled 7 12 ∷ []))

serve_all-IsSound_example : IsSound (serve_all (fresh new) requests)
serve_all-IsSound_example = serve_all-IsSound (fresh new) requests (fresh-IsSound new)

abbrev discovering : Database
discovering = serve (fresh new) (transition_started 7 unprovisioned 10)

serve-is_transition_allowed_example :
    (lifecycle_at (serve (fresh new) (transition_started 7 unprovisioned 10)) 7
      ≡ lifecycle_at (fresh new) 7)
    ⊎ (is_transition_allowed
          (lifecycle_at (fresh new) 7)
          (lifecycle_at (serve (fresh new) (transition_started 7 unprovisioned 10)) 7)
        ≡ true)
serve-is_transition_allowed_example =
    serve-is_transition_allowed (fresh new) (transition_started 7 unprovisioned 10) 7
      (fresh-IsSound new)

stale_reports_example :
    ((p : Plan) × (get_active_plan_for_device (fresh new) 7 ≡ some (3, p)))
    ⊎ ((mark_action_success (fresh new) 7 (some 3) 20 ≡ fresh new)
        × (mark_action_failed (fresh new) 7 (codes "late") (some 3) 20 ≡ fresh new))
stale_reports_example = stale_reports (fresh new) 7 3 20 (codes "late")

abbrev actions : List Action
actions = discover_hardware ∷ configure_bmc ∷ []

actions_in_order_example :
    ((k : ℕ)
      → k < 2
      → (get_current_action (reports k (started 7 actions 10) 10) ≡ get_elem? actions k)
        × ((reports k (started 7 actions 10) 10).status ≡ running))
    × ((reports 2 (started 7 actions 10) 10).status ≡ success)
actions_in_order_example = actions_in_order 7 actions 10

get_transition_type-allowed_example :
    (is_some (get_transition_type new broken) ≡ true)
    ↔ ((is_transition_allowed new broken ≡ true) × (broken ≢ broken))
get_transition_type-allowed_example = get_transition_type-allowed new broken

-- The discovery of device 7 was started at 10 and cancelled at 12.
abbrev cancelled_at_12 : Database
cancelled_at_12 =
    serve_all (fresh new) (transition_started 7 unprovisioned 10 ∷ (transition_cancelled 7 12 ∷ []))

abbrev cancelled_row : LifecycleTransition
cancelled_row = record {
  id = some 1;
  device_uuid = 7;
  from_state = new;
  to_state = unprovisioned;
  plan_id = some 1;
  started_at = some 10;
  completed_at = some 12;
  success = some false;
  error_message = some (codes "Cancelled by user");
}

-- The plan as a report read it before the cancellation, and the plan's row after it.
abbrev read_before : Plan
read_before = record {
  id = some 1;
  device_uuid = 7;
  status = pending;
  current_step = 0;
  total_steps = 2;
  actions = actions;
  error_message = none;
  created_at = some 10;
  started_at = none;
  completed_at = none;
}

abbrev cancelled_plan : Plan
cancelled_plan = record read_before {
  status = cancelled;
  error_message = some (codes "Cancelled by user");
  completed_at = some 12;
}

found_closed : get_transition_by_plan_id cancelled_at_12 1 ≡ some (1, cancelled_row)
unfolding get_transition_by_plan_id first_below serve_all serve start_lifecycle_transition
    cancel_active_transition get_active_transition_for_device newest_below get_device_lifecycle
    is_transition_allowed get_transition_type get_plan_stub_for_transition create_plan
    get_active_plan_for_device insert_plan new_plan create_transition new_transition
    cancel_active_plan_for_device complete_transition update_device_lifecycle is_active
found_closed = refl

plan_cancelled : cancelled_at_12.plans.rows 1 ≡ some cancelled_plan
unfolding serve_all serve start_lifecycle_transition cancel_active_transition
    get_active_transition_for_device newest_below get_device_lifecycle is_transition_allowed
    get_transition_type get_plan_stub_for_transition create_plan get_active_plan_for_device
    insert_plan new_plan create_transition new_transition cancel_active_plan_for_device
    complete_transition update_device_lifecycle is_active
plan_cancelled = refl

pending_active : is_active read_before ≡ true
unfolding is_active
pending_active = refl

late_success_example :
    ((apply_success cancelled_at_12 1 read_before 13).devices ≡ cancelled_at_12.devices)
    × ((apply_success cancelled_at_12 1 read_before 13).transitions ≡ cancelled_at_12.transitions)
    × ((r : Plan) × ((apply_success cancelled_at_12 1 read_before 13).plans.rows 1 ≡ some r)
        × (r.status ≢ cancelled))
late_success_example =
    late_success cancelled_at_12 1 1 cancelled_row false read_before cancelled_plan 13 found_closed
      refl pending_active plan_cancelled
