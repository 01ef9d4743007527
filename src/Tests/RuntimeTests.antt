-- ===== src/Tests/RuntimeTests.antt =====
-- Tests and examples for the runtime: services are named by the Pelican URL they are built with.
use pelican_mc_router.Prelude.{
  ℕ, ◌≡◌, ◌≢◌, ◌⊎◌, refl, Bool, true, false, Option, none, some, List, [], ◌∷◌, if◌then◌else◌, ◌==◌,
  is_empty, Result, ok, err,
}
use pelican_mc_router.Text.{Text, text, text_eq}
use pelican_mc_router.Router.Result.{no_result}
use pelican_mc_router.Router.Synchronizer.{plain, RouteController}
use pelican_mc_router.Runtime.Status.{failure, new_status, Event, started, ended, start, complete}
use pelican_mc_router.Runtime.Build.{
  Environment, Settings, cleanup, Synchronize, production, build, build_for,
}
use pelican_mc_router.Runtime.Refresh.{
  Task, begin_tracking, finish, fill_inventory, synchronize_and_publish, settle, observe,
  record_history, refresh,
}
use pelican_mc_router.Runtime.Refresh.Laws.{Failed, NotConfigured, Published, refresh-publishes}
use pelican_mc_router.Runtime.Activate.{
  compensate, activate_with, activate_built, activate_locked, activate_and_track, activate,
  activate_setup,
}
use pelican_mc_router.Runtime.Activate.Laws.{
  activate_with-restores, IsPublished, activate_locked-publishes,
}
use pelican_mc_router.Runtime.Activate.Tracked.{IsTracked, activate-IsTracked}
use pelican_mc_router.Tests.Data.{ascii}

-- `routed` is what the router serves, `stored` what the settings store holds; a synchronization
-- with the services `unreachable` fails once it has emptied the router.
record World : Type 0 where
  locked : Bool
  stored : Option Text
  routed : Option Text
  clock : ℕ

abbrev settings_for : Text → Settings
settings_for url = record {
  pelican_url = url;
  pelican_api_key = text "key";
  pelican_secret_name = [];
  router_domain = text "mc.example.com";
}

abbrev complete_setup : Option Text → Bool
complete_setup none = false
complete_setup (some url) = true

abbrev stored_settings : Option Text → Result Text Settings
stored_settings none = err (text "no settings")
stored_settings (some url) = ok (settings_for url)

abbrev synchronize : Synchronize World Text
synchronize scope none w = (no_result, none, record w { routed = none })
synchronize scope (some s) w =
    if s == text "unreachable"
    then (no_result, some (text "connection refused"), record w { routed = none })
    else (record no_result { changed = true }, none, record w { routed = some s })

abbrev environment : Environment World Text
environment = record {
  context_err = λ w. (ok tt, w);
  acquire = λ w. (if w.locked then err (text "deadline exceeded") else ok tt, w);
  is_setup_complete = λ w. (ok (complete_setup w.stored), w);
  load = λ w. (stored_settings w.stored, w);
  resolve = none;
  new_services = λ s. if is_empty s.pelican_url then err (text "no URL") else ok s.pelican_url;
  refresh_inventory = λ s w. (ok tt, w);
  synchronizer = production synchronize;
  now = λ w. w.clock;
  observe = none;
  record_outcome = none;
}

abbrev world_with : Option Text → World
world_with stored = record { locked = false; stored = stored; routed = none; clock = 7 }

abbrev locked_world : World
locked_world = record { locked = true; stored = none; routed = none; clock = 7 }

abbrev persist : Text → World → Result Text (Unit {0}) × World
persist url w = (ok tt, record w { stored = some url })

abbrev task : Task Text
task = record { published = some (text "panel"); status = new_status }

-- Opens what a refresh and an activation run.
running : Unit {0}
unfolding text_eq refresh begin_tracking finish fill_inventory synchronize_and_publish settle
    observe record_history build build_for start complete activate activate_and_track
    activate_locked activate_built activate_with compensate activate_setup
running = tt

refresh_test :
    (refresh environment task (world_with (some (text "panel2")))).task.published
    ≡ some (text "panel2")
unfolding running
refresh_test = refl

refresh_fine : (refresh environment task (world_with (some (text "panel2")))).error ≡ none
unfolding running
refresh_fine = refl

abbrev failed_world : World
failed_world = world_with (some (text "unreachable"))

refresh_fails : (refresh environment task failed_world).error ≢ none
unfolding running
refresh_fails fine = cc

refresh-publishes_example :
    let w = world_with (some (text "panel2")) in
    let v = (begin_tracking environment task (environment.acquire w).1).1 in
    Failed environment task w ⊎ NotConfigured environment task w v ⊎ Published environment task w v
refresh-publishes_example =
    refresh-publishes environment task (world_with (some (text "panel2"))) refl

undone :
    (activate_with environment
      (λ w. (err (text "disk full"), w))
      synchronize
      (some (text "panel"))
      (text "panel2")
      (world_with none)).error
    ≢ none
unfolding running
undone fine = cc

activate_with-restores_example :
    (w' : World) × ((activate_with environment
        (λ w. (err (text "disk full"), w))
        synchronize
        (some (text "panel"))
        (text "panel2")
        (world_with none)).world
      ≡ (synchronize cleanup (some (text "panel")) w').2)
activate_with-restores_example =
    activate_with-restores environment (λ w. (err (text "disk full"), w)) synchronize (text "panel")
      (text "panel2") (world_with none) undone

activated :
    (activate_locked environment
      (persist (text "panel2"))
      (settings_for (text "panel2"))
      (some (text "panel"))
      (world_with none)).error
    ≡ none
unfolding running
activated = refl

activate_locked-publishes_example :
    (s : Text) × ((build_for environment (settings_for (text "panel2")) (world_with none)).0 ≡ ok s)
    × IsPublished environment
        (persist (text "panel2"))
        (activate_locked environment
          (persist (text "panel2"))
          (settings_for (text "panel2"))
          (some (text "panel"))
          (world_with none)).published
        s
        (activate_locked environment
          (persist (text "panel2"))
          (settings_for (text "panel2"))
          (some (text "panel"))
          (world_with none)).world
activate_locked-publishes_example =
    activate_locked-publishes environment (persist (text "panel2")) (settings_for (text "panel2"))
      (some (text "panel")) (world_with none) activated

activate-IsTracked_example : IsTracked environment (settings_for (text "unreachable")) task (
    activate environment
      (persist (text "unreachable"))
      (settings_for (text "unreachable"))
      task
      (world_with none))
activate-IsTracked_example =
    activate-IsTracked environment (settings_for (text "unreachable")) task
      (persist (text "unreachable")) (world_with none) refl

abbrev stage : World → Result Text Text × World
stage w = (ok (text "generation-1"), w)

abbrev unstaged : World → Result Text Text × World
unstaged w = (err (text "disk full"), w)

abbrev promote : Text → World → Result Text (Unit {0}) × World
promote generation w = (ok tt, record w { stored = some generation })

abbrev skip : Text → World → Result Text (Unit {0}) × World
skip generation w = (ok tt, w)

abbrev events : List Event
events =
    started 1
    ∷ ended failure (text "route synchronization failed") no_result 2
    ∷ started 5
    ∷ ended failure (text "runtime build failed") no_result 6
    ∷ []

abbrev no_op : RouteController ℕ
no_op = plain (λ rs w. (none, w))
