-- ===== src/Director/Completion/Started.antt =====
-- director/mod.rs: from the start of a transition to its target.
use rack_director.Prelude.{
  ℕ, ◌≡◌, some, is_none, ok, >>=-eq-ok, ok_or, ok_or-eq-ok, ok-injective, sym, ap, ◌∙◌,
}
use rack_director.Plans.{new_plan}
use rack_director.Lifecycle.{
  DeviceLifecycle, new_transition, is_transition_allowed, TransitionType, get_transition_type,
  get_plan_stub_for_transition,
}
use rack_director.Database.{
  Database, Device, put, not_allowed, active_transition_exists, no_transition_type,
  get_active_transition_for_device, create_plan, insert_plan, create_transition,
}
use rack_director.Director.{check, check_role, start_lifecycle_transition, open_transition}
use rack_director.Director.Moves.{lifecycle_at, IsLinked}
use rack_director.Director.Steps.Requests.{create_plan-eq-ok}
use rack_director.Director.Completion.{rounds, reported, stage, row_of, made_plan, stage-run}

-- What a start leaves: the plan of its kind, and the open transition with that plan.
start-stage :
    (db : Database) (d : ℕ) (to : DeviceLifecycle) (now : ℕ) (kind : TransitionType)
    (next : Database) (i : ℕ)
    → get_transition_type (lifecycle_at db d) to ≡ some kind
    → start_lifecycle_transition db d to now ≡ ok (next, i)
    → next ≡ stage db d to now (put db.plans.next_id (made_plan db d to now kind) db.plans.rows)
unfolding start_lifecycle_transition lifecycle_at insert_plan create_transition stage row_of
    made_plan new_plan new_transition
start-stage db d to now kind next i is_kind h =
    let from_state = lifecycle_at db d in
    let (u, _, h1) =
      >>=-eq-ok (check (is_transition_allowed from_state to) not_allowed) _ (next, i) h in
    let (v, _, h2) =
      >>=-eq-ok (check (is_none (get_active_transition_for_device db d)) active_transition_exists) _
        (next, i) h1 in
    let (k, same_kind, h3) =
      >>=-eq-ok (ok_or (get_transition_type from_state to) no_transition_type) _ (next, i) h2 in
    let (w, _, h4) = >>=-eq-ok (check_role k (db.devices d)) _ (next, i) h3 in
    let (made, e, h5) =
      >>=-eq-ok (create_plan db (new_plan d (get_plan_stub_for_transition k)) now) _ (next, i) h4 in
    let same = create_plan-eq-ok db (new_plan d (get_plan_stub_for_transition k)) now made e in
    let kinds : k ≡ kind =
      let found = ok_or-eq-ok (get_transition_type from_state to) no_transition_type k same_kind in
      cc in
    sym (ap (λ m. m.0) (ok-injective h5))
    ∙ ap (λ m. (open_transition d from_state to now m).0) same
    ∙ ap (λ x. stage db d to now (put db.plans.next_id (made_plan db d to now x) db.plans.rows))
        kinds

-- A transition that is started, of a device in the table, reaches its target: after a report of
-- success for each action of the plan, or one report if it has none, the device is in the state that
-- was asked for. No transition may name a plan that is yet to be made.
pub start_lifecycle_transition-completes :
    (db : Database) (d : ℕ) (to : DeviceLifecycle) (now later : ℕ) (kind : TransitionType)
    (next : Database) (i : ℕ) (v : Device)
    → IsLinked db
    → db.devices d ≡ some v
    → get_transition_type (lifecycle_at db d) to ≡ some kind
    → start_lifecycle_transition db d to now ≡ ok (next, i)
    → lifecycle_at (reported (rounds (get_plan_stub_for_transition kind)) next d later) d ≡ to
start_lifecycle_transition-completes db d to now later kind next i v linked device is_kind h =
    ap (λ x. lifecycle_at (reported (rounds (get_plan_stub_for_transition kind)) x d later) d)
      (start-stage db d to now kind next i is_kind h)
    ∙ stage-run db d to now kind later v linked device
