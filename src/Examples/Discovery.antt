-- ===== src/Examples/Discovery.antt =====
-- The discovery of a new device by director/mod.rs, from its start to its end.
use rack_director.Prelude.{◌∷◌, [], ◌≡◌, refl, none, some, ok}
use rack_director.Plans.{new_plan, is_active}
use rack_director.Lifecycle.{
  new, unprovisioned, discover, new_transition, is_transition_allowed, get_transition_type,
  get_plan_stub_for_transition,
}
use rack_director.Database.{
  Database, newest_below, get_active_transition_for_device, get_active_plan_for_device,
  get_device_lifecycle, create_plan, insert_plan, create_transition,
}
use rack_director.Director.{start_lifecycle_transition}
use rack_director.Director.Moves.{lifecycle_at, IsLinked}
use rack_director.Director.Runs.{
  serve, serve_all, transition_started, transition_cancelled, serve_all-IsLinked,
}
use rack_director.Director.Completion.{reported, rounds}
use rack_director.Director.Completion.Started.{start_lifecycle_transition-completes}
use rack_director.Examples.Devices.{fresh, none≢some}

fresh-IsLinked : IsLinked (fresh new)
fresh-IsLinked = record { has_plans = λ i t row k e. elim (none≢some row) [ ] }

abbrev discovering : Database
discovering = serve (fresh new) (transition_started 7 unprovisioned 10)

is_discovery : get_transition_type (lifecycle_at (fresh new) 7) unprovisioned ≡ some discover
unfolding lifecycle_at get_device_lifecycle get_transition_type
is_discovery = refl

starts : start_lifecycle_transition (fresh new) 7 unprovisioned 10 ≡ ok (discovering, 1)
unfolding serve start_lifecycle_transition get_active_transition_for_device newest_below
    get_device_lifecycle is_transition_allowed get_transition_type get_plan_stub_for_transition
    create_plan get_active_plan_for_device insert_plan new_plan create_transition new_transition
    is_active
starts = refl

start_lifecycle_transition-completes_example :
    lifecycle_at (reported (rounds (get_plan_stub_for_transition discover)) discovering 7 20) 7
    ≡ unprovisioned
start_lifecycle_transition-completes_example =
    start_lifecycle_transition-completes (fresh new) 7 unprovisioned 10 20 discover discovering 1
      (record { lifecycle = new; role_id = none }) fresh-IsLinked refl is_discovery starts

serve_all-IsLinked_example : IsLinked (
    serve_all
      (fresh new)
      (transition_started 7 unprovisioned 10 ∷ (transition_cancelled 7 12 ∷ [])))
serve_all-IsLinked_example =
    serve_all-IsLinked (fresh new)
      (transition_started 7 unprovisioned 10 ∷ (transition_cancelled 7 12 ∷ [])) fresh-IsLinked
