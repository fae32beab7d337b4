-- ===== src/Director/Steps.antt =====
-- director/mod.rs: every operation is a move of Director/Moves.
pub mod Requests
use rack_director.Prelude.{
  ℕ, ◌≤◌, ◌≡◌, ◌⊎◌, inl, inr, Bool, true, false, ◌&&◌, ◌||◌, Option, none, some, Bytes, codes, ◌==◌,
  ==_iff, if◌then◌else◌, is_none, Result, ok, err, ◌>>=◌, >>=-eq-ok, ok_or, ok-injective, ◌∙◌, refl,
  sym, ap, subst, arith, List, [], ◌∷◌, Bool-cases,
}
use rack_director.Lifecycle.{
  DeviceLifecycle, new, broken, LifecycleTransition, new_transition, is_transition_allowed,
  get_transition_type, get_plan_stub_for_transition, TransitionType,
}
use rack_director.Plans
use rack_director.Plans.{
  get_current_action, Plan, PlanStatus, pending, running, success, failed, cancelled, new_plan,
}
use rack_director.Database.{
  Table, Database, update_device_lifecycle, DirectorError, not_allowed, active_transition_exists,
  no_transition_type, complete_found, complete_transition, set_transition, closed,
  get_transition_by_plan_id, same_plan, update_plan_status, update_found,
  get_active_plan_for_device, get_active_transition_for_device, cancel_active_plan_for_device,
  create_plan, insert_plan, of_open_transition, create_transition,
}
use rack_director.Database.Queries.{first_below-found, newest_below-found}
use rack_director.Director.{
  move_device, succeed_transition, fail_transition, handle_plan_completion_success,
  handle_plan_completion_failure, finish, write_plan, apply_success, apply_failure, apply_boot,
  report_success, report_failure, boot_plan, mark_action_success, mark_action_failed, on_boot,
  is_stale, start_lifecycle_transition, cancel_active_transition, cancel_found, close_cancelled,
  check, start_pending, is_pending, advances_on_boot, or_new, open_transition, check_role,
}
use rack_director.Director.Moves.{lifecycle_at, Move, rests, opens, closes}

module _ (db : Database) (plans : Table Plan) (grows : db.plans.next_id ≤ plans.next_id) where
  abbrev changed : Database
  changed = record db { plans = plans }

  close-open :
      (i : ℕ) (t : LifecycleTransition) (s : DeviceLifecycle) (succeeded : Bool)
      (message : Option Bytes) (now : ℕ) (open_flag : Option Bool)
      → db.transitions.rows i ≡ some t
      → (s ≡ t.to_state) ⊎ (s ≡ broken)
      → t.success ≡ open_flag
      → Move db (
          move_device
            (if is_none open_flag
              then (set_transition changed i (closed succeeded message now t), true)
              else (changed, false))
            t.device_uuid
            s)
  unfolding update_device_lifecycle
  close-open i t s succeeded message now none row target h =
      closes plans i t s succeeded message now row h target grows
  close-open i t s succeeded message now (some b) row target h = rests plans grows

  -- Closing a transition that was read, and moving its device if it was open still.
  close-Move :
      (i : ℕ) (t : LifecycleTransition) (s : DeviceLifecycle) (succeeded : Bool)
      (message : Option Bytes) (now : ℕ)
      → db.transitions.rows i ≡ some t
      → (s ≡ t.to_state) ⊎ (s ≡ broken)
      → Move db (move_device (complete_transition changed i succeeded message now) t.device_uuid s)
  unfolding complete_transition
  close-Move i t s succeeded message now row target =
      subst
        (λ r.
          Move db (move_device (complete_found changed i succeeded message now r) t.device_uuid s))
        (sym row) (close-open i t s succeeded message now t.success row target refl)

  succeed-Move :
      (plan_id now : ℕ) (found : Option (ℕ × LifecycleTransition))
      → get_transition_by_plan_id db plan_id ≡ found
      → Move db (succeed_transition changed found now)
  unfolding get_transition_by_plan_id
  succeed-Move plan_id now none h = rests plans grows
  succeed-Move plan_id now (some (i, t)) h =
      let (row, _) =
        first_below-found (λ t. same_plan plan_id t.plan_id) db.transitions.rows
          db.transitions.next_id i t h in
      close-Move i t t.to_state true none now row (inl refl)

  fail-Move :
      (plan_id : ℕ) (message : Bytes) (now : ℕ) (found : Option (ℕ × LifecycleTransition))
      → get_transition_by_plan_id db plan_id ≡ found
      → Move db (fail_transition changed found message now)
  unfolding get_transition_by_plan_id
  fail-Move plan_id message now none h = rests plans grows
  fail-Move plan_id message now (some (i, t)) h =
      let (row, _) =
        first_below-found (λ t. same_plan plan_id t.plan_id) db.transitions.rows
          db.transitions.next_id i t h in
      close-Move i t broken false (some message) now row (inr refl)

  finish-Move :
      (plan_id : ℕ) (status : PlanStatus) (now : ℕ) → Move db (finish changed plan_id status now)
  unfolding handle_plan_completion_success get_transition_by_plan_id
  finish-Move plan_id success now =
      succeed-Move plan_id now (get_transition_by_plan_id db plan_id) refl
  finish-Move plan_id pending now = rests plans grows
  finish-Move plan_id running now = rests plans grows
  finish-Move plan_id failed now = rests plans grows
  finish-Move plan_id cancelled now = rests plans grows

  failure-Move :
      (plan_id : ℕ) (message : Bytes) (now : ℕ)
      → Move db (handle_plan_completion_failure changed plan_id message now)
  unfolding handle_plan_completion_failure get_transition_by_plan_id
  failure-Move plan_id message now =
      fail-Move plan_id message now (get_transition_by_plan_id db plan_id) refl

-- A plan's row is all that is written.
pub write_plan-rests :
    (db : Database) (i : ℕ) (p : Plan) (now : ℕ)
    → (plans : Table Plan) × (db.plans.next_id ≤ plans.next_id)
      × (write_plan db i p now ≡ record db { plans = plans })
unfolding update_plan_status
write_plan-rests db i p now = go (db.plans.rows i)
  where
    go :
        (row : Option Plan)
        → (plans : Table Plan) × (db.plans.next_id ≤ plans.next_id)
          × (update_found db i p.status p.current_step p.error_message now row
              ≡ record db { plans = plans })
    go none = (db.plans, omega arith, refl)
    go (some q) = (_, omega arith, refl)

finished-Move :
    (db : Database) (i : ℕ) (p : Plan) (now : ℕ)
    → Move db (finish (write_plan db i p now) i p.status now)
finished-Move db i p now =
    let (plans, grows, e) = write_plan-rests db i p now in
    subst (λ n. Move db (finish n i p.status now)) (sym e)
      (finish-Move db plans grows i p.status now)

if-Move : {db x y : Database} (b : Bool) → Move db x → Move db y → Move db (if b then x else y)
if-Move true mx my = mx
if-Move false mx my = my

pub idle : {db : Database} → Move db db
idle {db} = rests db.plans (omega arith)

-- The plan that is applied may have been read before other operations ran.
pub apply_success-Move :
    (db : Database) (i : ℕ) (p : Plan) (now : ℕ) → Move db (apply_success db i p now)
unfolding apply_success
apply_success-Move db i p now =
    finished-Move db i (Plans.mark_action_success (start_pending p now) now).0 now

pub apply_failure-Move :
    (db : Database) (i : ℕ) (p : Plan) (message : Bytes) (now : ℕ)
    → Move db (apply_failure db i p message now)
unfolding apply_failure Plans.mark_action_failed
apply_failure-Move db i p message now =
    let (plans, grows, e) = write_plan-rests db i (Plans.mark_action_failed p message now).0 now in
    subst (λ n. Move db (handle_plan_completion_failure n i message now)) (sym e)
      (failure-Move db plans grows i message now)

pub apply_boot-Move : (db : Database) (i : ℕ) (p : Plan) (now : ℕ) → Move db (apply_boot db i p now)
unfolding apply_boot
apply_boot-Move db i p now =
    let started = start_pending p now in
    let advances = advances_on_boot (get_current_action started) in
    if-Move (is_pending p.status || advances)
      (finished-Move db i (if advances then (Plans.mark_action_success started now).0 else started)
        now)
      idle

pub mark_action_success-Move :
    (db : Database) (d : ℕ) (reported : Option ℕ) (now : ℕ)
    → Move db (mark_action_success db d reported now)
unfolding mark_action_success
mark_action_success-Move db d reported now = go (get_active_plan_for_device db d)
  where
    go : (found : Option (ℕ × Plan)) → Move db (report_success db found reported now)
    go none = idle
    go (some (i, p)) = if-Move (is_stale reported i) idle (apply_success-Move db i p now)

pub mark_action_failed-Move :
    (db : Database) (d : ℕ) (message : Bytes) (reported : Option ℕ) (now : ℕ)
    → Move db (mark_action_failed db d message reported now)
unfolding mark_action_failed
mark_action_failed-Move db d message reported now = go (get_active_plan_for_device db d)
  where
    go : (found : Option (ℕ × Plan)) → Move db (report_failure db found message reported now)
    go none = idle
    go (some (i, p)) = if-Move (is_stale reported i) idle (apply_failure-Move db i p message now)

pub on_boot-Move : (db : Database) (d now : ℕ) → Move db (on_boot db d now)
unfolding on_boot
on_boot-Move db d now = go (get_active_plan_for_device db d)
  where
    go : (found : Option (ℕ × Plan)) → Move db (boot_plan db found now)
    go none = idle
    go (some (i, p)) = apply_boot-Move db i p now
