-- ===== src/Plans.antt =====
-- plans/mod.rs: a plan, its steps and its status. A time is a number; `now` is the clock's reading.
pub mod Actions
pub mod Progress
use rack_director.Prelude.{
  ℕ, ◌+◌, Bool, true, false, Option, none, some, List, [], Bytes, codes, str_eq, length, get_elem?,
  ltb, leb, if◌then◌else◌,
}
use Actions.{Action}

pub data PlanStatus : Type 0 where
  pending running success failed cancelled : PlanStatus

unfoldable pub status_of_string : Bytes → PlanStatus
status_of_string s =
    if str_eq s (codes "pending")
    then pending
    else if str_eq s (codes "running")
    then running
    else if str_eq s (codes "success")
    then success
    else if str_eq s (codes "failed")
    then failed
    else if str_eq s (codes "cancelled")
    then cancelled
    else pending

unfoldable pub string_of_status : PlanStatus → Bytes
string_of_status pending = codes "pending"
string_of_status running = codes "running"
string_of_status success = codes "success"
string_of_status failed = codes "failed"
string_of_status cancelled = codes "cancelled"

-- The steps are i32 in the source; they start at 0 and never fall, so they are numbers here, for
-- plans of fewer than 2^31 actions.
pub record Plan : Type 0 where
  pub id : Option ℕ
  pub device_uuid : ℕ
  pub status : PlanStatus
  pub current_step : ℕ
  pub total_steps : ℕ
  pub actions : List Action
  pub error_message : Option Bytes
  pub created_at : Option ℕ
  pub started_at : Option ℕ
  pub completed_at : Option ℕ

unfoldable pub new_plan : ℕ → List Action → Plan
new_plan device_uuid actions = record {
  id = none;
  device_uuid = device_uuid;
  status = pending;
  current_step = 0;
  total_steps = length actions;
  actions = actions;
  error_message = none;
  created_at = none;
  started_at = none;
  completed_at = none;
}

pub data ActionResult : Type 0 where
  continue plan_completed plan_failed : ActionResult

unfoldable pub get_current_action : Plan → Option Action
get_current_action p = get_elem? p.actions p.current_step

unfoldable pub is_completed : Plan → Bool
is_completed p = elim p.status [ pending ↦ false | running ↦ false | _ ↦ true ]

abbrev pub is_active_status : PlanStatus → Bool
is_active_status pending = true
is_active_status running = true
is_active_status _ = false

unfoldable pub is_active : Plan → Bool
is_active p = is_active_status p.status

-- `current_step < total_steps - 1`, over the integers.
unfoldable pub advance_step : Plan → Plan × Bool
advance_step p =
    if ltb (p.current_step + 1) p.total_steps
    then (record p { current_step = p.current_step + 1 }, true)
    else (p, false)

mark_completed : Plan → ℕ → Plan
mark_completed p now = record p { status = success; completed_at = some now }

unfoldable pub mark_action_success : Plan → ℕ → Plan × ActionResult
unfolding advance_step mark_completed
mark_action_success p now =
    let (q, advanced) = advance_step p in
    if advanced then (q, continue) else (mark_completed q now, plan_completed)

unfoldable pub mark_action_failed : Plan → Bytes → ℕ → Plan × ActionResult
mark_action_failed p error_message now = (
  record p { status = failed; error_message = some error_message; completed_at = some now },
  plan_failed,
)

no_more_actions : Plan → Bool
no_more_actions p = leb p.total_steps p.current_step

unfoldable pub start : Plan → ℕ → Plan
unfolding no_more_actions mark_completed
start p now = elim p.status [
  | pending ↦
      let q = record p { status = running; started_at = some now } in
      if no_more_actions q then mark_completed q now else q
  | _ ↦ p
]
