-- ===== src/Director/Runs.antt =====
-- director/mod.rs: what reaches the director, in any order, and the lifecycles that come of it.
use rack_director.Prelude.{
  ℕ, ◌≡◌, ◌⊎◌, inl, inr, true, Option, Bytes, Result, ok, err, refl, List, [], ◌∷◌, ◌∙◌,
}
use rack_director.Lifecycle.{DeviceLifecycle, removed, is_transition_allowed}
use rack_director.Plans.{Plan}
use rack_director.Database.{Database, DirectorError, create_plan}
use rack_director.Director.{
  mark_action_success, mark_action_failed, on_boot, start_lifecycle_transition,
  cancel_active_transition, apply_success, apply_failure, apply_boot,
}
use rack_director.Director.Moves.{lifecycle_at, Move, IsLinked, IsSound, Move-is_transition_allowed}
use rack_director.Director.Moves.Kept.{Move-IsSound, Move-IsLinked}
use rack_director.Director.Steps.Requests.{
  create_plan-Move, start_lifecycle_transition-Move, cancel_active_transition-Move,
}
use rack_director.Director.Steps.{
  mark_action_success-Move, mark_action_failed-Move, on_boot-Move, apply_success-Move,
  apply_failure-Move, apply_boot-Move, idle,
}

-- The requests of the interface and the agents. A late write is the second half of a report, whose
-- first half read the plan before other requests were served.
pub data Request : Type 0 where
  plan_created : Plan → ℕ → Request
  transition_started : ℕ → DeviceLifecycle → ℕ → Request
  device_booted : ℕ → ℕ → Request
  action_succeeded : ℕ → Option ℕ → ℕ → Request
  action_failed : ℕ → Bytes → Option ℕ → ℕ → Request
  transition_cancelled : ℕ → ℕ → Request
  late_success late_boot : ℕ → Plan → ℕ → Request
  late_failure : ℕ → Plan → Bytes → ℕ → Request

-- A request that fails leaves the tables as they are.
abbrev pub after : Database → Result DirectorError (Database × ℕ) → Database
after db (ok (next, _)) = next
after db (err e) = db

abbrev pub after_cancel : Database → Result DirectorError Database → Database
after_cancel db (ok next) = next
after_cancel db (err e) = db

unfoldable pub serve : Database → Request → Database
serve db (plan_created p now) = after db (create_plan db p now)
serve db (transition_started d to now) = after db (start_lifecycle_transition db d to now)
serve db (device_booted d now) = on_boot db d now
serve db (action_succeeded d reported now) = mark_action_success db d reported now
serve db (action_failed d message reported now) = mark_action_failed db d message reported now
serve db (transition_cancelled d now) = after_cancel db (cancel_active_transition db d now)
serve db (late_success i p now) = apply_success db i p now
serve db (late_boot i p now) = apply_boot db i p now
serve db (late_failure i p message now) = apply_failure db i p message now

unfoldable pub serve_all : Database → List Request → Database
serve_all db [] = db
serve_all db (r ∷ rs) = serve_all (serve db r) rs

after-Move :
    (db : Database) (r : Result DirectorError (Database × ℕ))
    → ((next : Database) (i : ℕ) → r ≡ ok (next, i) → Move db next)
    → Move db (after db r)
after-Move db (ok (next, i)) h = h next i refl
after-Move db (err e) h = idle

after_cancel-Move :
    (db : Database) (r : Result DirectorError Database)
    → ((next : Database) → r ≡ ok next → Move db next)
    → Move db (after_cancel db r)
after_cancel-Move db (ok next) h = h next refl
after_cancel-Move db (err e) h = idle

serve-Move : (db : Database) (r : Request) → Move db (serve db r)
unfolding serve
serve-Move db (plan_created p now) =
    after-Move db (create_plan db p now) (create_plan-Move db p now)
serve-Move db (transition_started d to now) =
    after-Move db (start_lifecycle_transition db d to now)
      (start_lifecycle_transition-Move db d to now)
serve-Move db (device_booted d now) = on_boot-Move db d now
serve-Move db (action_succeeded d reported now) = mark_action_success-Move db d reported now
serve-Move db (action_failed d message reported now) =
    mark_action_failed-Move db d message reported now
serve-Move db (transition_cancelled d now) =
    after_cancel-Move db (cancel_active_transition db d now)
      (cancel_active_transition-Move db d now)
serve-Move db (late_success i p now) = apply_success-Move db i p now
serve-Move db (late_boot i p now) = apply_boot-Move db i p now
serve-Move db (late_failure i p message now) = apply_failure-Move db i p message now

-- Every sequence of requests keeps sound tables sound: each open transition is allowed, starts in its
-- device's state and is the device's only open one.
pub serve_all-IsSound : (db : Database) (rs : List Request) → IsSound db → IsSound (serve_all db rs)
unfolding serve_all
serve_all-IsSound db [] sound = sound
serve_all-IsSound db (r ∷ rs) sound =
    serve_all-IsSound (serve db r) rs (Move-IsSound sound (serve-Move db r))

-- Every sequence of requests keeps the links: no transition names a plan that is yet to be made.
pub serve_all-IsLinked :
    (db : Database) (rs : List Request) → IsLinked db → IsLinked (serve_all db rs)
unfolding serve_all
serve_all-IsLinked db [] linked = linked
serve_all-IsLinked db (r ∷ rs) linked =
    serve_all-IsLinked (serve db r) rs (Move-IsLinked linked (serve-Move db r))

-- One request on sound tables, a late write of a report among them, changes the state of any device
-- along an allowed transition, or not at all.
pub serve-is_transition_allowed :
    (db : Database) (r : Request) (d : ℕ)
    → IsSound db
    → (lifecycle_at (serve db r) d ≡ lifecycle_at db d)
      ⊎ (is_transition_allowed (lifecycle_at db d) (lifecycle_at (serve db r) d) ≡ true)
serve-is_transition_allowed db r d sound = Move-is_transition_allowed sound (serve-Move db r) d

removed-last :
    (s t : DeviceLifecycle) → s ≡ removed → is_transition_allowed s t ≡ true → t ≡ removed
unfolding is_transition_allowed
removed-last s t e h = cc

-- On sound tables a device that is removed stays removed, whatever is requested.
serve_all-removed :
    (db : Database) (rs : List Request) (d : ℕ)
    → IsSound db
    → lifecycle_at db d ≡ removed
    → lifecycle_at (serve_all db rs) d ≡ removed
unfolding serve_all
serve_all-removed db [] d sound h = h
serve_all-removed db (r ∷ rs) d sound h =
    let here : lifecycle_at (serve db r) d ≡ removed =
      elim (serve-is_transition_allowed db r d sound) [
        | inl kept ↦ kept ∙ h
        | inr allowed ↦ removed-last (lifecycle_at db d) (lifecycle_at (serve db r) d) h allowed
      ] in
    serve_all-removed (serve db r) rs d (Move-IsSound sound (serve-Move db r)) here
