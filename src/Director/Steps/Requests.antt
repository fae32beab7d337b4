-- ===== src/Director/Steps/Requests.antt =====
-- director/mod.rs: what the interface asks for is a move: a new plan, a new transition, a cancellation.
use rack_director.Prelude.{
  ℕ, ◌≤◌, ◌≡◌, inr, Bool, true, false, Option, none, some, Bytes, codes, if◌then◌else◌, is_none, ok,
  >>=-eq-ok, ok_or, ok-injective, ◌∙◌, refl, sym, ap, subst, arith,
}
use rack_director.Lifecycle.{
  DeviceLifecycle, broken, LifecycleTransition, is_transition_allowed, get_transition_type,
  get_plan_stub_for_transition,
}
use rack_director.Plans.{Plan, new_plan}
use rack_director.Database.{
  Table, Database, update_device_lifecycle, DirectorError, not_allowed, active_transition_exists,
  no_transition_type, complete_found, complete_transition, set_transition, closed,
  get_active_transition_for_device, cancel_active_plan_for_device, create_plan, insert_plan,
  of_open_transition, create_transition,
}
use rack_director.Database.Queries.{newest_below-found}
use rack_director.Director.{
  start_lifecycle_transition, cancel_active_transition, cancel_found, close_cancelled, check,
  open_transition, check_role,
}
use rack_director.Director.Moves.{lifecycle_at, Move, rests, opens, closes}

check-eq-ok : (b : Bool) (e : DirectorError) (u : Unit) → check b e ≡ ok u → b ≡ true
check-eq-ok true e u h = refl
check-eq-ok false e u h = cc

is_none-true : {A : Type 0} (o : Option A) → is_none o ≡ true → o ≡ none
is_none-true none h = refl
is_none-true (some a) h = cc

pub create_plan-eq-ok :
    (db : Database) (p : Plan) (now : ℕ) (made : Database × ℕ)
    → create_plan db p now ≡ ok made
    → made ≡ (insert_plan db p now, db.plans.next_id)
unfolding create_plan
create_plan-eq-ok db p now made h = ground arith

pub create_plan-Move :
    (db : Database) (p : Plan) (now : ℕ) (next : Database) (i : ℕ)
    → create_plan db p now ≡ ok (next, i)
    → Move db next
unfolding insert_plan
create_plan-Move db p now next i h =
    subst (Move db) (sym (ap (λ m. m.0) (create_plan-eq-ok db p now (next, i) h)))
      (rests _ (omega arith))

pub start_lifecycle_transition-Move :
    (db : Database) (d : ℕ) (to : DeviceLifecycle) (now : ℕ) (next : Database) (i : ℕ)
    → start_lifecycle_transition db d to now ≡ ok (next, i)
    → Move db next
unfolding start_lifecycle_transition lifecycle_at insert_plan create_transition
start_lifecycle_transition-Move db d to now next i h =
    let from_state = lifecycle_at db d in
    let (u, allowed, h1) =
      >>=-eq-ok (check (is_transition_allowed from_state to) not_allowed) _ (next, i) h in
    let (v, free, h2) =
      >>=-eq-ok (check (is_none (get_active_transition_for_device db d)) active_transition_exists) _
        (next, i) h1 in
    let (kind, _, h3) =
      >>=-eq-ok (ok_or (get_transition_type from_state to) no_transition_type) _ (next, i) h2 in
    let (w, _, h4) = >>=-eq-ok (check_role kind (db.devices d)) _ (next, i) h3 in
    let (made, e, h5) =
      >>=-eq-ok (create_plan db (new_plan d (get_plan_stub_for_transition kind)) now) _ (next, i)
        h4 in
    let p = new_plan d (get_plan_stub_for_transition kind) in
    let same = create_plan-eq-ok db p now made e in
    let opened =
      sym (ap (λ m. (open_transition d from_state to now m).0) same)
      ∙ ap (λ m. m.0) (ok-injective h5) in
    subst (Move db) opened (
      opens (insert_plan db p now).plans d db.plans.next_id now to
        (is_none-true (get_active_transition_for_device db d) (check-eq-ok _ _ v free))
        (check-eq-ok _ _ u allowed) (omega arith) (omega arith))

of_open-true :
    (d : ℕ) (t : LifecycleTransition)
    → of_open_transition d t ≡ true
    → (t.device_uuid ≡ d) × (t.success ≡ none)
of_open-true d t h = ground arith

complete_transition-open :
    (db : Database) (i : ℕ) (t : LifecycleTransition) (succeeded : Bool) (message : Option Bytes)
    (now : ℕ)
    → db.transitions.rows i ≡ some t
    → t.success ≡ none
    → complete_transition db i succeeded message now
      ≡ (set_transition db i (closed succeeded message now t), true)
unfolding complete_transition
complete_transition-open db i t succeeded message now row h =
    ap (complete_found db i succeeded message now) row
    ∙ ap
        (λ o.
          if is_none o
          then (set_transition db i (closed succeeded message now t), true)
          else (db, false))
        h

closed-Move :
    (db : Database) (plans : Table Plan) (grows : db.plans.next_id ≤ plans.next_id)
    (cancelled_one : Bool) (d i : ℕ) (t : LifecycleTransition) (now : ℕ) (next : Database)
    → db.transitions.rows i ≡ some t
    → t.device_uuid ≡ d
    → t.success ≡ none
    → close_cancelled (record db { plans = plans }, cancelled_one) d i now ≡ ok next
    → Move db next
unfolding update_device_lifecycle
closed-Move db plans grows false d i t now next row device is_open h = cc
closed-Move db plans grows true d i t now next row device is_open h =
    let message : Option Bytes = some (codes "Cancelled by user") in
    let part : Database = record db { plans = plans } in
    let e = complete_transition-open part i t false message now row is_open in
    let path =
      sym (ap (λ m. update_device_lifecycle m.0 t.device_uuid broken) e)
      ∙ ap (λ u. update_device_lifecycle (complete_transition part i false message now).0 u broken)
          device
      ∙ ok-injective h in
    subst (Move db) path (closes plans i t broken false message now row is_open (inr refl) grows)

pub cancel_active_transition-Move :
    (db : Database) (d now : ℕ) (next : Database)
    → cancel_active_transition db d now ≡ ok next
    → Move db next
unfolding cancel_active_transition cancel_active_plan_for_device get_active_transition_for_device
cancel_active_transition-Move db d now next h = go (get_active_transition_for_device db d) refl h
  where
    go :
        (found : Option (ℕ × LifecycleTransition))
        → get_active_transition_for_device db d ≡ found
        → cancel_found db d found now ≡ ok next
        → Move db next
    go none e h1 = cc
    go (some (i, t)) e h1 =
        let (row, passes) =
          newest_below-found (of_open_transition d) db.transitions.rows db.transitions.next_id i t
            e in
        let (device, is_open) = of_open-true d t passes in
        closed-Move db _ (omega arith) _ d i t now next row device is_open h1
