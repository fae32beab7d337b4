-- ===== src/Lifecycle.antt =====
-- lifecycle/mod.rs: the lifecycle of a device, and the transitions that are allowed.
pub mod Transitions
use rack_director.Prelude.{
  ℕ, Bool, true, false, Option, none, some, List, [], ◌∷◌, Bytes, codes, str_eq, if◌then◌else◌,
}
use rack_director.Plans.Actions.{
  Action, discover_hardware, configure_bmc, install_os, partition_disks,
}

pub data DeviceLifecycle : Type 0 where
  new unprovisioned provisioned removed broken : DeviceLifecycle

pub data TransitionType : Type 0 where
  discover provision deprovision remove repair : TransitionType

-- `From<String>`: what is no name of a state is read as `new`.
unfoldable pub lifecycle_of_string : Bytes → DeviceLifecycle
lifecycle_of_string s =
    if str_eq s (codes "new")
    then new
    else if str_eq s (codes "unprovisioned")
    then unprovisioned
    else if str_eq s (codes "provisioned")
    then provisioned
    else if str_eq s (codes "removed")
    then removed
    else if str_eq s (codes "broken")
    then broken
    else new

unfoldable pub string_of_lifecycle : DeviceLifecycle → Bytes
string_of_lifecycle new = codes "new"
string_of_lifecycle unprovisioned = codes "unprovisioned"
string_of_lifecycle provisioned = codes "provisioned"
string_of_lifecycle removed = codes "removed"
string_of_lifecycle broken = codes "broken"

unfoldable pub transition_of_string : Bytes → TransitionType
transition_of_string s =
    if str_eq s (codes "discover")
    then discover
    else if str_eq s (codes "provision")
    then provision
    else if str_eq s (codes "deprovision")
    then deprovision
    else if str_eq s (codes "remove")
    then remove
    else if str_eq s (codes "repair")
    then repair
    else provision

unfoldable pub string_of_transition : TransitionType → Bytes
string_of_transition discover = codes "discover"
string_of_transition provision = codes "provision"
string_of_transition deprovision = codes "deprovision"
string_of_transition remove = codes "remove"
string_of_transition repair = codes "repair"

pub record LifecycleTransition : Type 0 where
  pub id : Option ℕ
  pub device_uuid : ℕ
  pub from_state : DeviceLifecycle
  pub to_state : DeviceLifecycle
  pub plan_id : Option ℕ
  pub started_at : Option ℕ
  pub completed_at : Option ℕ
  pub success : Option Bool
  pub error_message : Option Bytes

unfoldable pub new_transition :
    ℕ → DeviceLifecycle → DeviceLifecycle → Option ℕ → LifecycleTransition
new_transition device_uuid from_state to_state plan_id = record {
  id = none;
  device_uuid = device_uuid;
  from_state = from_state;
  to_state = to_state;
  plan_id = plan_id;
  started_at = none;
  completed_at = none;
  success = none;
  error_message = none;
}

unfoldable pub is_transition_allowed : DeviceLifecycle → DeviceLifecycle → Bool
is_transition_allowed new unprovisioned = true
is_transition_allowed unprovisioned provisioned = true
is_transition_allowed provisioned unprovisioned = true
is_transition_allowed unprovisioned removed = true
is_transition_allowed new broken = true
is_transition_allowed unprovisioned broken = true
is_transition_allowed provisioned broken = true
is_transition_allowed broken unprovisioned = true
is_transition_allowed broken provisioned = true
is_transition_allowed _ _ = false

unfoldable pub get_transition_type : DeviceLifecycle → DeviceLifecycle → Option TransitionType
get_transition_type new unprovisioned = some discover
get_transition_type unprovisioned provisioned = some provision
get_transition_type provisioned unprovisioned = some deprovision
get_transition_type unprovisioned removed = some remove
get_transition_type broken unprovisioned = some repair
get_transition_type broken provisioned = some provision
get_transition_type _ _ = none

unfoldable pub get_plan_stub_for_transition : TransitionType → List Action
get_plan_stub_for_transition discover = discover_hardware ∷ configure_bmc ∷ []
get_plan_stub_for_transition provision = partition_disks ∷ install_os ∷ []
get_plan_stub_for_transition deprovision = []
get_plan_stub_for_transition remove = []
get_plan_stub_for_transition repair = []
