-- ===== src/Database.antt =====
-- plans/store.rs, lifecycle/store.rs and the two columns of director/store.rs that they read: the
-- rows of three tables, and the statements that the stores run on them. A row's id is its key, and a
-- query that gives a row gives its id with it. An id is never used again. `ORDER BY created_at DESC`
-- is the order of the ids, since a row is created later than the rows before it. A plan's device is a
-- foreign key, so the insertion fails for a device that is not in the table.
pub mod Queries
use rack_director.Prelude.{
  ℕ, zero, suc, Bool, true, false, ◌&&◌, Option, none, some, Bytes, codes, ◌==◌, if◌then◌else◌,
  is_none, is_some, Result, ok, err,
}
use rack_director.Plans.{Plan, PlanStatus, running, success, failed, cancelled, pending, is_active}
use rack_director.Plans.Actions.{Action, reboot_device, install_os}
use rack_director.Lifecycle.{DeviceLifecycle, LifecycleTransition}
use rack_director.Prelude.{List, [], ◌∷◌}

pub record Table (A : Type 0) : Type 0 where
  pub rows : ℕ → Option A
  pub next_id : ℕ

pub record Device : Type 0 where
  pub lifecycle : DeviceLifecycle
  pub role_id : Option ℕ

pub record Database : Type 0 where
  pub plans : Table Plan
  pub transitions : Table LifecycleTransition
  pub devices : ℕ → Option Device

abbrev pub put : {A : Type 0} → ℕ → A → (ℕ → Option A) → ℕ → Option A
put i a rows k = if k == i then some a else rows k

abbrev pub insert : {A : Type 0} → A → Table A → Table A
insert a t = record { rows = put t.next_id a t.rows; next_id = suc t.next_id }

abbrev pub keep : {A : Type 0} → (A → Bool) → ℕ → Option A → Option (ℕ × A)
keep test i none = none
keep test i (some a) = if test a then some (i, a) else none

abbrev pub or_else : {A : Type 0} → Option A → Option A → Option A
or_else none y = y
or_else (some x) y = some x

-- The rows below `n` that pass a test: the last one, and the first one.
unfoldable pub newest_below : {A : Type 0} → (A → Bool) → (ℕ → Option A) → ℕ → Option (ℕ × A)
newest_below test rows zero = none
newest_below test rows (suc n) = or_else (keep test n (rows n)) (newest_below test rows n)

unfoldable pub first_below : {A : Type 0} → (A → Bool) → (ℕ → Option A) → ℕ → Option (ℕ × A)
first_below test rows zero = none
first_below test rows (suc n) = or_else (first_below test rows n) (keep test n (rows n))

abbrev pub of_active_plan : ℕ → Plan → Bool
unfolding is_active
of_active_plan device_uuid p = p.device_uuid == device_uuid && is_active p

unfoldable pub get_active_plan_for_device : Database → ℕ → Option (ℕ × Plan)
get_active_plan_for_device db device_uuid =
    newest_below (of_active_plan device_uuid) db.plans.rows db.plans.next_id

pub data DirectorError : Type 0 where
  cannot_be_first_action active_plan_exists not_allowed active_transition_exists no_transition_type
        device_not_found no_role no_active_transition already_completed :
      DirectorError

abbrev pub is_bad_first_action : List Action → Bool
is_bad_first_action [] = false
is_bad_first_action (reboot_device ∷ _) = true
is_bad_first_action (install_os ∷ _) = true
is_bad_first_action (_ ∷ _) = false

unfoldable pub insert_plan : Database → Plan → ℕ → Database
insert_plan db p now = record db {
  plans =
      insert
        (record p {
          id = some db.plans.next_id;
          created_at = some now;
          started_at = none;
          completed_at = none;
        })
        db.plans;
}

unfoldable pub create_plan : Database → Plan → ℕ → Result DirectorError (Database × ℕ)
create_plan db p now =
    if is_bad_first_action p.actions
    then err cannot_be_first_action
    else if is_some (get_active_plan_for_device db p.device_uuid)
    then err active_plan_exists
    else if is_none (db.devices p.device_uuid)
    then err device_not_found
    else ok (insert_plan db p now, db.plans.next_id)

abbrev pub cancel_plan : ℕ → ℕ → Option Plan → Option Plan
cancel_plan device_uuid now none = none
cancel_plan device_uuid now (some p) =
    if of_active_plan device_uuid p
    then some (record p {
      status = cancelled;
      error_message = some (codes "Cancelled by user");
      completed_at = some now;
    })
    else some p

-- The Boolean is `rows > 0`.
unfoldable pub cancel_active_plan_for_device : Database → ℕ → ℕ → Database × Bool
unfolding get_active_plan_for_device
cancel_active_plan_for_device db device_uuid now = (
  record db {
    plans = record {
      rows = λ i. cancel_plan device_uuid now (db.plans.rows i);
      next_id = db.plans.next_id;
    };
  },
  is_some (get_active_plan_for_device db device_uuid),
)

abbrev pub with_status : PlanStatus → ℕ → Option Bytes → ℕ → Plan → Plan
with_status running step message now p = record p {
  status = running;
  current_step = step;
  started_at = some now;
}
with_status success step message now p = record p {
  status = success;
  current_step = step;
  error_message = message;
  completed_at = some now;
}
with_status failed step message now p = record p {
  status = failed;
  current_step = step;
  error_message = message;
  completed_at = some now;
}
with_status cancelled step message now p = record p {
  status = cancelled;
  current_step = step;
  error_message = message;
  completed_at = some now;
}
with_status pending step message now p = record p {
  status = pending;
  current_step = step;
  error_message = message;
}

abbrev pub set_plan : Database → ℕ → Plan → Database
set_plan db i p = record db {
  plans = record { rows = put i p db.plans.rows; next_id = db.plans.next_id };
}

abbrev pub update_found : Database → ℕ → PlanStatus → ℕ → Option Bytes → ℕ → Option Plan → Database
update_found db plan_id status current_step error_message now none = db
update_found db plan_id status current_step error_message now (some p) =
    set_plan db plan_id (with_status status current_step error_message now p)

unfoldable pub update_plan_status : Database → ℕ → PlanStatus → ℕ → Option Bytes → ℕ → Database
update_plan_status db plan_id status current_step error_message now =
    update_found db plan_id status current_step error_message now (db.plans.rows plan_id)

abbrev pub lifecycle_of : Option Device → Option DeviceLifecycle
lifecycle_of none = none
lifecycle_of (some v) = some v.lifecycle

unfoldable pub get_device_lifecycle : Database → ℕ → Option DeviceLifecycle
get_device_lifecycle db device_uuid = lifecycle_of (db.devices device_uuid)

abbrev pub set_lifecycle : DeviceLifecycle → Option Device → Option Device
set_lifecycle s none = none
set_lifecycle s (some v) = some (record v { lifecycle = s })

unfoldable pub update_device_lifecycle : Database → ℕ → DeviceLifecycle → Database
update_device_lifecycle db device_uuid s = record db {
  devices = λ u. if u == device_uuid then set_lifecycle s (db.devices u) else db.devices u;
}

unfoldable pub create_transition : Database → LifecycleTransition → ℕ → Database × ℕ
create_transition db t now = (
  record db {
    transitions =
        insert
          (record t {
            id = some db.transitions.next_id;
            started_at = some now;
            completed_at = none;
            success = none;
            error_message = none;
          })
          db.transitions;
  },
  db.transitions.next_id,
)

abbrev pub of_open_transition : ℕ → LifecycleTransition → Bool
of_open_transition device_uuid t = t.device_uuid == device_uuid && is_none t.success

unfoldable pub get_active_transition_for_device : Database → ℕ → Option (ℕ × LifecycleTransition)
get_active_transition_for_device db device_uuid =
    newest_below (of_open_transition device_uuid) db.transitions.rows db.transitions.next_id

abbrev pub same_plan : ℕ → Option ℕ → Bool
same_plan plan_id none = false
same_plan plan_id (some i) = i == plan_id

unfoldable pub get_transition_by_plan_id : Database → ℕ → Option (ℕ × LifecycleTransition)
get_transition_by_plan_id db plan_id =
    first_below (λ t. same_plan plan_id t.plan_id) db.transitions.rows db.transitions.next_id

abbrev pub closed : Bool → Option Bytes → ℕ → LifecycleTransition → LifecycleTransition
closed succeeded message now t = record t {
  completed_at = some now;
  success = some succeeded;
  error_message = message;
}

abbrev pub set_transition : Database → ℕ → LifecycleTransition → Database
set_transition db i t = record db {
  transitions = record { rows = put i t db.transitions.rows; next_id = db.transitions.next_id };
}

abbrev pub complete_found :
    Database → ℕ → Bool → Option Bytes → ℕ → Option LifecycleTransition → Database × Bool
complete_found db i succeeded message now none = (db, false)
complete_found db i succeeded message now (some t) =
    if is_none t.success
    then (set_transition db i (closed succeeded message now t), true)
    else (db, false)

-- The Boolean tells that a row was updated: ids are unique, so the count is 0 or 1.
unfoldable pub complete_transition : Database → ℕ → Bool → Option Bytes → ℕ → Database × Bool
complete_transition db transition_id succeeded error_message now =
    complete_found db transition_id succeeded error_message now (db.transitions.rows transition_id)
