-- ===== src/Director.antt =====
-- director/mod.rs: the operations that move a device along its lifecycle: a transition is started
-- with a plan, the reports of the agent advance the plan, and the plan's end closes the transition.
-- Every operation is given `now`, the clock's reading. Left out are the hooks that
-- start_lifecycle_transition runs last (a power kick of the BMC and `action.start`, whose failures
-- are only logged and which write none of these tables), and errors of the database itself.
pub mod Moves
pub mod Steps
pub mod Runs
pub mod Races
pub mod Completion
use rack_director.Prelude.{
  ℕ, Bool, true, false, ◌&&◌, ◌||◌, not, Option, none, some, Bytes, codes, ◌==◌, if◌then◌else◌,
  is_none, is_some, Result, ok, err, ◌>>=◌, ok_or,
}
use rack_director.Plans.{
  Plan, PlanStatus, pending, running, success, failed, cancelled, new_plan, get_current_action,
  start,
}
use rack_director.Plans
use rack_director.Plans.Actions.{Action, advance_on_boot}
use rack_director.Lifecycle.{
  DeviceLifecycle, new, broken, TransitionType, provision, LifecycleTransition, new_transition,
  is_transition_allowed, get_transition_type, get_plan_stub_for_transition,
}
use rack_director.Database.{
  Database, Device, DirectorError, cannot_be_first_action, not_allowed, active_transition_exists,
  no_transition_type, device_not_found, no_role, no_active_transition, already_completed,
  get_active_plan_for_device, create_plan, cancel_active_plan_for_device, update_plan_status,
  get_device_lifecycle, update_device_lifecycle, create_transition,
  get_active_transition_for_device, get_transition_by_plan_id, complete_transition,
}

-- The completion handlers: the transition's row is the gate, and the lifecycle follows it.
abbrev pub move_device : Database × Bool → ℕ → DeviceLifecycle → Database
move_device (db, false) device_uuid s = db
move_device (db, true) device_uuid s = update_device_lifecycle db device_uuid s

abbrev pub succeed_transition : Database → Option (ℕ × LifecycleTransition) → ℕ → Database
succeed_transition db none now = db
succeed_transition db (some (i, t)) now =
    move_device (complete_transition db i true none now) t.device_uuid t.to_state

unfoldable pub handle_plan_completion_success : Database → ℕ → ℕ → Database
handle_plan_completion_success db plan_id now =
    succeed_transition db (get_transition_by_plan_id db plan_id) now

abbrev pub fail_transition : Database → Option (ℕ × LifecycleTransition) → Bytes → ℕ → Database
fail_transition db none error_message now = db
fail_transition db (some (i, t)) error_message now =
    move_device (complete_transition db i false (some error_message) now) t.device_uuid broken

unfoldable pub handle_plan_completion_failure : Database → ℕ → Bytes → ℕ → Database
handle_plan_completion_failure db plan_id error_message now =
    fail_transition db (get_transition_by_plan_id db plan_id) error_message now

abbrev pub finish : Database → ℕ → PlanStatus → ℕ → Database
finish db plan_id success now = handle_plan_completion_success db plan_id now
finish db plan_id _ now = db

-- `update_plan_status` with the plan's fields.
abbrev pub write_plan : Database → ℕ → Plan → ℕ → Database
write_plan db plan_id p now =
    update_plan_status db plan_id p.status p.current_step p.error_message now

abbrev pub is_pending : PlanStatus → Bool
is_pending pending = true
is_pending _ = false

abbrev pub start_pending : Plan → ℕ → Plan
start_pending p now = if is_pending p.status then start p now else p

abbrev pub is_stale : Option ℕ → ℕ → Bool
is_stale none plan_id = false
is_stale (some reported) plan_id = not (reported == plan_id)

-- What follows the reading of the active plan, with the plan as it was read.
unfoldable pub apply_success : Database → ℕ → Plan → ℕ → Database
apply_success db plan_id p now =
    let q = (Plans.mark_action_success (start_pending p now) now).0 in
    finish (write_plan db plan_id q now) plan_id q.status now

abbrev pub report_success : Database → Option (ℕ × Plan) → Option ℕ → ℕ → Database
report_success db none reported_plan_id now = db
report_success db (some (plan_id, p)) reported_plan_id now =
    if is_stale reported_plan_id plan_id then db else apply_success db plan_id p now

unfoldable pub mark_action_success : Database → ℕ → Option ℕ → ℕ → Database
mark_action_success db device_uuid reported_plan_id now =
    report_success db (get_active_plan_for_device db device_uuid) reported_plan_id now

unfoldable pub apply_failure : Database → ℕ → Plan → Bytes → ℕ → Database
apply_failure db plan_id p error_message now =
    let q = (Plans.mark_action_failed p error_message now).0 in
    handle_plan_completion_failure (write_plan db plan_id q now) plan_id error_message now

abbrev pub report_failure : Database → Option (ℕ × Plan) → Bytes → Option ℕ → ℕ → Database
report_failure db none error_message reported_plan_id now = db
report_failure db (some (plan_id, p)) error_message reported_plan_id now =
    if is_stale reported_plan_id plan_id then db else apply_failure db plan_id p error_message now

unfoldable pub mark_action_failed : Database → ℕ → Bytes → Option ℕ → ℕ → Database
mark_action_failed db device_uuid error_message reported_plan_id now =
    report_failure db (get_active_plan_for_device db device_uuid) error_message reported_plan_id now

abbrev pub advances_on_boot : Option Action → Bool
advances_on_boot none = false
advances_on_boot (some a) = advance_on_boot a

unfoldable pub apply_boot : Database → ℕ → Plan → ℕ → Database
apply_boot db plan_id p now =
    let started = start_pending p now in
    let should_advance = advances_on_boot (get_current_action started) in
    let q = if should_advance then (Plans.mark_action_success started now).0 else started in
    if is_pending p.status || should_advance
    then finish (write_plan db plan_id q now) plan_id q.status now
    else db

abbrev pub boot_plan : Database → Option (ℕ × Plan) → ℕ → Database
boot_plan db none now = db
boot_plan db (some (plan_id, p)) now = apply_boot db plan_id p now

unfoldable pub on_boot : Database → ℕ → ℕ → Database
on_boot db device_uuid now = boot_plan db (get_active_plan_for_device db device_uuid) now

abbrev pub or_new : Option DeviceLifecycle → DeviceLifecycle
or_new none = new
or_new (some s) = s

abbrev pub has_role : Option Device → Result {0} DirectorError Unit
has_role none = err device_not_found
has_role (some v) = if is_none v.role_id then err no_role else ok tt

abbrev pub check_role : TransitionType → Option Device → Result {0} DirectorError Unit
check_role provision device = has_role device
check_role _ device = ok tt

abbrev pub check : Bool → DirectorError → Result {0} DirectorError Unit
check true e = ok tt
check false e = err e

-- The plan is there: the transition's row, with its plan's id.
abbrev pub open_transition : ℕ → DeviceLifecycle → DeviceLifecycle → ℕ → Database × ℕ → Database × ℕ
open_transition device_uuid from_state to_state now (db, plan_id) =
    create_transition db (new_transition device_uuid from_state to_state (some plan_id)) now

unfoldable pub start_lifecycle_transition :
    Database → ℕ → DeviceLifecycle → ℕ → Result DirectorError (Database × ℕ)
start_lifecycle_transition db device_uuid to_state now =
    let from_state = or_new (get_device_lifecycle db device_uuid) in
    do
      _ ← check (is_transition_allowed from_state to_state) not_allowed
      _ ← check (is_none (get_active_transition_for_device db device_uuid)) active_transition_exists
      kind ← ok_or (get_transition_type from_state to_state) no_transition_type
      _ ← check_role kind (db.devices device_uuid)
      made ← create_plan db (new_plan device_uuid (get_plan_stub_for_transition kind)) now
      ok (open_transition device_uuid from_state to_state now made)

abbrev pub close_cancelled : Database × Bool → ℕ → ℕ → ℕ → Result DirectorError Database
close_cancelled (db, false) device_uuid transition_id now = err already_completed
close_cancelled (db, true) device_uuid transition_id now = ok (
    update_device_lifecycle
      (complete_transition db transition_id false (some (codes "Cancelled by user")) now).0
      device_uuid broken)

abbrev pub cancel_found :
    Database → ℕ → Option (ℕ × LifecycleTransition) → ℕ → Result DirectorError Database
cancel_found db device_uuid none now = err no_active_transition
cancel_found db device_uuid (some (transition_id, t)) now =
    close_cancelled (cancel_active_plan_for_device db device_uuid now) device_uuid transition_id now

unfoldable pub cancel_active_transition : Database → ℕ → ℕ → Result DirectorError Database
cancel_active_transition db device_uuid now =
    cancel_found db device_uuid (get_active_transition_for_device db device_uuid) now
