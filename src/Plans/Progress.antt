-- ===== src/Plans/Progress.antt =====
-- plans/mod.rs: a plan under the reports of its agent, from its start to its end.
use rack_director.Prelude.{
  ℕ, zero, suc, ◌+◌, ◌≤◌, ◌<◌, ◌≡◌, true, false, some, List, refl, ap, ◌∙◌, arith, [], ◌∷◌, length,
  get_elem?, ltb, leb, lt→ltb,
}
use rack_director.Plans.Actions.{Action}
use rack_director.Plans.{
  Plan, running, success, new_plan, get_current_action, advance_step, mark_action_success, start,
  mark_completed, no_more_actions,
}

-- The plan after `k` reports of success.
unfoldable pub reports : ℕ → Plan → ℕ → Plan
reports zero p now = p
reports (suc k) p now = reports k (mark_action_success p now).0 now

advances :
    (p : Plan) (now : ℕ)
    → p.current_step + 1 < p.total_steps
    → (mark_action_success p now).0 ≡ record p { current_step = p.current_step + 1 }
unfolding mark_action_success advance_step
advances p now h =
    let more : ltb (p.current_step + 1) p.total_steps ≡ true = lt→ltb _ _ h in rw more

ends :
    (p : Plan) (now : ℕ)
    → p.total_steps ≤ p.current_step + 1
    → (mark_action_success p now).0 ≡ mark_completed p now
unfolding mark_action_success advance_step
ends p now h = let last : ltb (p.current_step + 1) p.total_steps ≡ false = ground arith in rw last

reports-within :
    (k : ℕ) (p : Plan) (now : ℕ)
    → p.current_step + k < p.total_steps
    → reports k p now ≡ record p { current_step = p.current_step + k }
unfolding reports
reports-within zero p now h =
    ap (λ n. record p { current_step = n })
      (let same : p.current_step ≡ p.current_step + 0 = omega arith in same)
reports-within (suc k) p now h =
    let more : p.current_step + 1 < p.total_steps = omega (arith, h) in
    let moved : p.current_step + 1 + k ≡ p.current_step + suc k = omega arith in
    ap (λ q. reports k q now) (advances p now more)
    ∙ reports-within k (record p { current_step = p.current_step + 1 }) now (omega (arith, h))
    ∙ ap (λ n. record p { current_step = n }) moved

-- One more report than there were actions before the last one.
reports-last :
    (k : ℕ) (p : Plan) (now : ℕ)
    → p.total_steps ≡ p.current_step + suc k
    → (reports (suc k) p now).status ≡ success
unfolding reports mark_completed
reports-last zero p now h = ap (λ q. q.status) (ends p now (omega (arith, h)))
reports-last (suc k) p now h =
    ap (λ q. (reports (suc k) q now).status) (advances p now (omega (arith, h)))
    ∙ reports-last k (record p { current_step = p.current_step + 1 }) now
        (let e : p.total_steps ≡ p.current_step + 1 + suc k = omega (arith, h) in e)

abbrev pub started : ℕ → List Action → ℕ → Plan
started device_uuid actions now = start (new_plan device_uuid actions) now

started-eq :
    (device_uuid : ℕ) (actions : List Action) (now : ℕ)
    → 0 < length actions
    → started device_uuid actions now
      ≡ record (new_plan device_uuid actions) { status = running; started_at = some now }
unfolding start new_plan no_more_actions
started-eq device_uuid actions now h =
    let more : leb (length actions) 0 ≡ false = ground arith in rw more

-- A plan that is started works through its actions in their order: after k reports of success, k
-- less than the number of actions, it is running and its current action is the one at k; after as
-- many reports as actions it has succeeded, which for a plan of no action is once it is started.
pub actions_in_order :
    (device_uuid : ℕ) (actions : List Action) (now : ℕ)
    → ((k : ℕ)
        → k < length actions
        → (get_current_action (reports k (started device_uuid actions now) now)
            ≡ get_elem? actions k)
          × ((reports k (started device_uuid actions now) now).status ≡ running))
      × ((reports (length actions) (started device_uuid actions now) now).status ≡ success)
unfolding get_current_action new_plan start no_more_actions mark_completed reports
actions_in_order device_uuid [] now = (λ k h. ground (arith, h), refl)
actions_in_order device_uuid (a ∷ rest) now =
    let begun : Plan = record (new_plan device_uuid (a ∷ rest)) {
      status = running;
      started_at = some now;
    } in
    let begins = started-eq device_uuid (a ∷ rest) now (omega arith) in
    (
      λ k h.
          let e =
            ap (λ q. reports k q now) begins ∙ reports-within k begun now (omega (arith, h)) in
          (
            ap get_current_action e
                ∙ ap (get_elem? (a ∷ rest)) (let same : 0 + k ≡ k = omega arith in same),
            ap (λ q. q.status) e,
          ),
      ap (λ q. (reports (suc (length rest)) q now).status) begins
          ∙ reports-last (length rest) begun now
              (let e : suc (length rest) ≡ 0 + suc (length rest) = omega arith in e),
    )
