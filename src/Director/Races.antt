-- ===== src/Director/Races.antt =====
-- director/mod.rs, plans/store.rs, lifecycle/store.rs: a report that meets a cancellation.
use rack_director.Prelude.{
  ℕ, ◌≡◌, ◌≢◌, ◌⊎◌, inl, inr, Bool, true, false, Option, none, some, refl, sym, ◌∙◌, ap,
  if◌then◌else◌, is_none, arith, Bytes,
}
use rack_director.Plans
use rack_director.Plans.{Plan, PlanStatus, pending, running, success, failed, cancelled, is_active}
use rack_director.Lifecycle.{LifecycleTransition}
use rack_director.Database.{
  Database, get_active_plan_for_device, get_transition_by_plan_id, complete_transition, Table,
  same_plan, complete_found, set_transition, closed, update_plan_status, with_status, put,
  update_found,
}
use rack_director.Director.{
  mark_action_success, mark_action_failed, report_success, report_failure, is_stale, apply_success,
  write_plan, finish, move_device, succeed_transition, handle_plan_completion_success,
  start_pending,
}
use rack_director.Database.Queries.{first_below-found}

not_stale : (rid i : ℕ) → (is_stale (some rid) i ≡ true) ⊎ (i ≡ rid)
not_stale rid i = ground arith

kept_if : {A : Type 0} (b : Bool) (x y : A) → b ≡ true → (if b then x else y) ≡ x
kept_if true x y h = refl
kept_if false x y h = cc

-- A report that names a plan changes nothing unless that plan is the device's active one, for a
-- success and for a failure.
pub stale_reports :
    (db : Database) (d rid now : ℕ) (message : Bytes)
    → ((p : Plan) × (get_active_plan_for_device db d ≡ some (rid, p)))
      ⊎ ((mark_action_success db d (some rid) now ≡ db)
          × (mark_action_failed db d message (some rid) now ≡ db))
unfolding mark_action_success mark_action_failed
stale_reports db d rid now message = go (get_active_plan_for_device db d)
  where
    go :
        (found : Option (ℕ × Plan))
        → ((p : Plan) × (found ≡ some (rid, p)))
          ⊎ ((report_success db found (some rid) now ≡ db)
              × (report_failure db found message (some rid) now ≡ db))
    go none = inr (refl, refl)
    go (some (i, p)) = elim (not_stale rid i) [
      | inl stale ↦ inr (kept_if _ db _ stale, kept_if _ db _ stale)
      | inr same ↦ inl (p, ap (λ k. some (k, p)) same)
    ]

-- The gate: a plan whose transition is closed ends without a further change.
finish-closed :
    (db : Database) (plans : Table Plan) (plan_id i : ℕ) (t : LifecycleTransition) (b : Bool)
    (status : PlanStatus) (now : ℕ)
    → get_transition_by_plan_id db plan_id ≡ some (i, t)
    → t.success ≡ some b
    → finish (record db { plans = plans }) plan_id status now ≡ record db { plans = plans }
unfolding handle_plan_completion_success complete_transition get_transition_by_plan_id
finish-closed db plans plan_id i t b success now found h =
    let part : Database = record db { plans = plans } in
    let (row, _) =
      first_below-found (λ t. same_plan plan_id t.plan_id) db.transitions.rows
        db.transitions.next_id i t found in
    ap (λ o. succeed_transition part o now) found
    ∙ ap (λ r. move_device (complete_found part i true none now r) t.device_uuid t.to_state) row
    ∙ ap
        (λ o.
          move_device
            (if is_none o
              then (set_transition part i (closed true none now t), true)
              else (part, false))
            t.device_uuid t.to_state)
        h
finish-closed db plans plan_id i t b pending now found h = refl
finish-closed db plans plan_id i t b running now found h = refl
finish-closed db plans plan_id i t b failed now found h = refl
finish-closed db plans plan_id i t b cancelled now found h = refl

put-same : {A : Type 0} (i : ℕ) (a : A) (rows : ℕ → Option A) → put i a rows i ≡ some a
put-same i a rows = ground arith

with_status-status :
    (s : PlanStatus) (step : ℕ) (message : Option Bytes) (now : ℕ) (p : Plan)
    → (with_status s step message now p).status ≡ s
with_status-status pending step message now p = refl
with_status-status running step message now p = refl
with_status-status success step message now p = refl
with_status-status failed step message now p = refl
with_status-status cancelled step message now p = refl

-- The status that a plan has after a success is `running` or `success`, if it was active.
success-status :
    (p : Plan) (now : ℕ)
    → is_active p ≡ true
    → (Plans.mark_action_success (start_pending p now) now).0.status ≢ cancelled
unfolding is_active Plans.mark_action_success Plans.start
success-status p now h = ground arith

-- A success whose plan was read before a cancellation closed its transition, and is written after
-- it: no device and no transition changes, but the plan's row, if there is one, is no longer
-- `cancelled`.
pub late_success :
    (db : Database) (plan_id i : ℕ) (t : LifecycleTransition) (b : Bool) (p q : Plan) (now : ℕ)
    → get_transition_by_plan_id db plan_id ≡ some (i, t)
    → t.success ≡ some b
    → is_active p ≡ true
    → db.plans.rows plan_id ≡ some q
    → ((apply_success db plan_id p now).devices ≡ db.devices)
      × ((apply_success db plan_id p now).transitions ≡ db.transitions)
      × ((r : Plan) × ((apply_success db plan_id p now).plans.rows plan_id ≡ some r)
          × (r.status ≢ cancelled))
unfolding apply_success update_plan_status
late_success db plan_id i t b p q now found h active row =
    let done = (Plans.mark_action_success (start_pending p now) now).0 in
    let r = with_status done.status done.current_step done.error_message now q in
    let plans : Table Plan = record {
      rows = put plan_id r db.plans.rows;
      next_id = db.plans.next_id;
    } in
    let e : write_plan db plan_id done now ≡ record db { plans = plans } =
      ap (update_found db plan_id done.status done.current_step done.error_message now) row in
    let same =
      ap (λ n. finish n plan_id done.status now) e
      ∙ finish-closed db plans plan_id i t b done.status now found h in
    (
      ap (λ n. n.devices) same,
      ap (λ n. n.transitions) same,
      (
        r,
        ap (λ n. n.plans.rows plan_id) same ∙ put-same plan_id r db.plans.rows,
        λ is_cancelled. success-status p now active (
            sym (with_status-status done.status done.current_step done.error_message now q)
            ∙ is_cancelled),
      ),
    )
