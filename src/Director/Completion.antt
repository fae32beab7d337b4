-- ===== src/Director/Completion.antt =====
-- director/mod.rs: a transition that is started and whose actions succeed brings its device to the
-- target.
pub mod Started
use rack_director.Prelude.{
  ℕ, zero, suc, ◌<◌, ◌≡◌, ◌⊎◌, inl, inr, Bool, true, false, ◌&&◌, Option, none, some, Bytes, ◌==◌,
  ==_iff, if◌then◌else◌, is_none, is_some, Result, ok, err, refl, sym, ap, subst, ◌∙◌, arith, List,
  [], ◌∷◌, length,
}
use rack_director.Plans
use rack_director.Plans.{Plan, PlanStatus, running, success, new_plan, is_active}
use rack_director.Lifecycle.{
  DeviceLifecycle, LifecycleTransition, new_transition, TransitionType, discover, provision,
  deprovision, remove, repair, get_transition_type, get_plan_stub_for_transition,
}
use rack_director.Plans.Actions.{Action}
use rack_director.Database.{
  Table, Database, Device, keep, or_else, newest_below, first_below, put, of_active_plan, same_plan,
  update_found, update_plan_status, with_status, get_active_plan_for_device,
  get_transition_by_plan_id, complete_transition, complete_found, update_device_lifecycle,
  get_device_lifecycle, lifecycle_of, set_lifecycle, closed, set_transition,
}
use rack_director.Director.{
  apply_success, report_success, mark_action_success, finish, handle_plan_completion_success,
  succeed_transition, move_device, start_pending, or_new,
}
use rack_director.Director.Moves.{lifecycle_at, IsLinked}

kept :
    {A : Type 0} (test : A → Bool) (n : ℕ) (a : A)
    → test a ≡ true
    → keep test n (some a) ≡ some (n, a)
kept test n a h = ap (λ b. if b then some (n, a) else none) h

dropped :
    {A : Type 0} (test : A → Bool) (n : ℕ) (row : Option A)
    → ((a : A) → row ≡ some a → test a ≡ false)
    → keep test n row ≡ none
dropped test n none h = refl
dropped test n (some a) h = ap (λ b. if b then some (n, a) else none) (h a refl)

-- The last row, if it passes, is the newest.
newest_below-last :
    {A : Type 0} (test : A → Bool) (rows : ℕ → Option A) (n : ℕ) (a : A)
    → rows n ≡ some a
    → test a ≡ true
    → newest_below test rows (suc n) ≡ some (n, a)
unfolding newest_below
newest_below-last test rows n a row h =
    ap (λ k. or_else k (newest_below test rows n)) (ap (keep test n) row ∙ kept test n a h)

first_below-none :
    {A : Type 0} (test : A → Bool) (rows : ℕ → Option A) (n : ℕ)
    → ((i : ℕ) (a : A) → i < n → rows i ≡ some a → test a ≡ false)
    → first_below test rows n ≡ none
unfolding first_below
first_below-none test rows zero h = refl
first_below-none test rows (suc n) h =
    ap (λ k. or_else k (keep test n (rows n)))
      (first_below-none test rows n (λ i a below row. h i a (omega (arith, below)) row))
    ∙ dropped test n (rows n) (λ a row. h n a (omega arith) row)

-- The last row, if it is the only one that passes, is the first.
first_below-last :
    {A : Type 0} (test : A → Bool) (rows : ℕ → Option A) (n : ℕ) (a : A)
    → ((i : ℕ) (b : A) → i < n → rows i ≡ some b → test b ≡ false)
    → rows n ≡ some a
    → test a ≡ true
    → first_below test rows (suc n) ≡ some (n, a)
unfolding first_below
first_below-last test rows n a others row h =
    ap (λ k. or_else k (keep test n (rows n))) (first_below-none test rows n others)
    ∙ ap (keep test n) row
    ∙ kept test n a h

put-same : {A : Type 0} (i : ℕ) (a : A) (rows : ℕ → Option A) → put i a rows i ≡ some a
put-same i a rows = ground arith

put-below :
    {A : Type 0} (n : ℕ) (a : A) (rows : ℕ → Option A) (i : ℕ) (b : A)
    → i < n
    → put n a rows i ≡ some b
    → rows i ≡ some b
put-below n a rows i b below h = ground arith

other_plan : (o : Option ℕ) (n : ℕ) → ((k : ℕ) → o ≡ some k → k < n) → same_plan n o ≡ false
other_plan none n h = refl
other_plan (some k) n h = let below = h k refl in ground arith

-- As many reports of success as a plan has actions, but one for a plan of none.
abbrev pub rounds : List Action → ℕ
rounds [] = 1
rounds (a ∷ rest) = suc (length rest)

unfoldable pub reported : ℕ → Database → ℕ → ℕ → Database
reported zero db d now = db
reported (suc k) db d now = reported k (mark_action_success db d none now) d now

module _ (db : Database) (d : ℕ) (to : DeviceLifecycle) (now : ℕ) where
  abbrev pub row_of : LifecycleTransition
  unfolding new_transition
  row_of = record (new_transition d (lifecycle_at db d) to (some db.plans.next_id)) {
    id = some db.transitions.next_id;
    started_at = some now;
    completed_at = none;
    success = none;
    error_message = none;
  }

  -- The tables while the transition is open, with the rows of the plans as they stand.
  abbrev pub stage : (ℕ → Option Plan) → Database
  unfolding row_of
  stage rows = record {
    plans = record { rows = rows; next_id = suc db.plans.next_id };
    transitions = record {
      rows = put db.transitions.next_id row_of db.transitions.rows;
      next_id = suc db.transitions.next_id;
    };
    devices = db.devices;
  }

  -- One report of success, on the plan at the new id.
  stage-report :
      (rows : ℕ → Option Plan) (p : Plan) (later : ℕ)
      → rows db.plans.next_id ≡ some p
      → of_active_plan d p ≡ true
      → let q = (Plans.mark_action_success (start_pending p later) later).0 in
        mark_action_success (stage rows) d none later
        ≡ finish
            (stage (
              put db.plans.next_id
                (with_status q.status q.current_step q.error_message later p)
                rows))
            db.plans.next_id
            q.status
            later
  unfolding stage mark_action_success get_active_plan_for_device apply_success update_plan_status
  stage-report rows p later row active =
      let q = (Plans.mark_action_success (start_pending p later) later).0 in
      ap (λ found. report_success (stage rows) found none later)
        (newest_below-last (of_active_plan d) rows db.plans.next_id p row active)
      ∙ ap
          (λ r.
            finish
              (update_found (stage rows) db.plans.next_id q.status q.current_step q.error_message
                later r)
              db.plans.next_id q.status later)
          row

  -- The end of the plan brings the device to the target.
  stage-completion :
      (rows : ℕ → Option Plan) (later : ℕ) (v : Device)
      → IsLinked db
      → db.devices d ≡ some v
      → lifecycle_at (handle_plan_completion_success (stage rows) db.plans.next_id later) d ≡ to
  unfolding stage row_of handle_plan_completion_success get_transition_by_plan_id
      complete_transition lifecycle_at get_device_lifecycle update_device_lifecycle new_transition
  stage-completion rows later v linked device =
      let n = db.plans.next_id in
      let m = db.transitions.next_id in
      let found =
        first_below-last (λ t. same_plan n t.plan_id) (put m row_of db.transitions.rows) m row_of
          (λ i b below h.
            other_plan b.plan_id n
              (linked.has_plans i b (put-below m row_of db.transitions.rows i b below h)))
          (put-same m row_of db.transitions.rows) ((==_iff n n).1 refl) in
      ap (λ f. or_new (lifecycle_of ((succeed_transition (stage rows) f later).devices d))) found
      ∙ ap
          (λ r. or_new (
            lifecycle_of
              ((move_device (complete_found (stage rows) m true none later r) d to).devices d)))
          (put-same m row_of db.transitions.rows)
      ∙ ap
          (λ b. or_new (lifecycle_of (if b then set_lifecycle to (db.devices d) else db.devices d)))
          ((==_iff d d).1 refl)
      ∙ ap (λ o. or_new (lifecycle_of (set_lifecycle to o))) device

  -- The plan that is made for a kind of transition.
  abbrev pub made_plan : TransitionType → Plan
  unfolding new_plan get_plan_stub_for_transition
  made_plan kind = record (new_plan d (get_plan_stub_for_transition kind)) {
    id = some db.plans.next_id;
    created_at = some now;
    started_at = none;
    completed_at = none;
  }

  abbrev successor : Plan → ℕ → Plan
  successor p later = (Plans.mark_action_success (start_pending p later) later).0

  abbrev written : Plan → ℕ → Plan
  written p later =
      let q = (Plans.mark_action_success (start_pending p later) later).0 in
      with_status q.status q.current_step q.error_message later p

  -- The last report, and the first of two.
  last-report :
      (rows : ℕ → Option Plan) (p : Plan) (later : ℕ) (v : Device)
      → IsLinked db
      → db.devices d ≡ some v
      → rows db.plans.next_id ≡ some p
      → of_active_plan d p ≡ true
      → (successor p later).status ≡ success
      → lifecycle_at (mark_action_success (stage rows) d none later) d ≡ to
  last-report rows p later v linked device row active done =
      let next = put db.plans.next_id (written p later) rows in
      ap (λ x. lifecycle_at x d) (stage-report rows p later row active)
      ∙ ap (λ s. lifecycle_at (finish (stage next) db.plans.next_id s later) d) done
      ∙ stage-completion next later v linked device

  two-reports :
      (rows : ℕ → Option Plan) (p : Plan) (later : ℕ) (v : Device)
      → IsLinked db
      → db.devices d ≡ some v
      → rows db.plans.next_id ≡ some p
      → of_active_plan d p ≡ true
      → (successor p later).status ≡ running
      → of_active_plan d (written p later) ≡ true
      → (successor (written p later) later).status ≡ success
      → lifecycle_at
          (mark_action_success (mark_action_success (stage rows) d none later) d none later)
          d
        ≡ to
  two-reports rows p later v linked device row active more active2 done =
      let next = put db.plans.next_id (written p later) rows in
      ap (λ x. lifecycle_at (mark_action_success x d none later) d)
        (stage-report rows p later row active
          ∙ ap (λ s. finish (stage next) db.plans.next_id s later) more)
      ∙ last-report next (written p later) later v linked device
          (put-same db.plans.next_id (written p later) rows) active2 done

  pub stage-run :
      (kind : TransitionType) (later : ℕ) (v : Device)
      → IsLinked db
      → db.devices d ≡ some v
      → lifecycle_at
          (reported
            (rounds (get_plan_stub_for_transition kind))
            (stage (put db.plans.next_id (made_plan kind) db.plans.rows))
            d
            later)
          d
        ≡ to
  unfolding reported made_plan new_plan get_plan_stub_for_transition Plans.mark_action_success
      Plans.start is_active
  stage-run discover later v linked device =
      two-reports _ (made_plan discover) later v linked device
        (put-same db.plans.next_id (made_plan discover) db.plans.rows) here refl here refl
    where
      here : (d == d && true) ≡ true
      here = ap (λ b. b && true) ((==_iff d d).1 refl)
  stage-run provision later v linked device =
      two-reports _ (made_plan provision) later v linked device
        (put-same db.plans.next_id (made_plan provision) db.plans.rows) here refl here refl
    where
      here : (d == d && true) ≡ true
      here = ap (λ b. b && true) ((==_iff d d).1 refl)
  stage-run deprovision later v linked device =
      last-report _ (made_plan deprovision) later v linked device
        (put-same db.plans.next_id (made_plan deprovision) db.plans.rows)
        (ap (λ b. b && true) ((==_iff d d).1 refl)) refl
  stage-run remove later v linked device =
      last-report _ (made_plan remove) later v linked device
        (put-same db.plans.next_id (made_plan remove) db.plans.rows)
        (ap (λ b. b && true) ((==_iff d d).1 refl)) refl
  stage-run repair later v linked device =
      last-report _ (made_plan repair) later v linked device
        (put-same db.plans.next_id (made_plan repair) db.plans.rows)
        (ap (λ b. b && true) ((==_iff d d).1 refl)) refl
