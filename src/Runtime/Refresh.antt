-- ===== src/Runtime/Refresh.antt =====
-- `Refresh` of backend/internal/runtime/refresh_task.go, with the manager of manager.go. The
-- refresh lock makes one refresh or activation one step; waiting for it is `acquire`.
pub mod Laws
use pelican_mc_router.Prelude.{
  ◌≡◌, Bool, true, false, Option, none, some, List, [], ◌∷◌, Result, ok, err, if◌then◌else◌,
}
use pelican_mc_router.Text.{Text, text}
use pelican_mc_router.Router.Result.{ReconciliationResult, no_result}
use pelican_mc_router.Runtime.Status.{
  Outcome, not_configured, success, failure, Status, start, complete,
}
use pelican_mc_router.Runtime.Build.{
  Environment, BuildError, Synchronizer, absent, production, custom, Scope, request, build,
}

-- What `Manager` publishes, and the tracker.
pub record Task (S : Type 0) : Type 0 where
  pub published : Option S
  pub status : Status

pub data RefreshError : Type 0 where
  not_acquired refresh_inventory synchronize_routes : Text → RefreshError
  build_services : BuildError → RefreshError

pub record Refreshed (W S : Type 0) : Type 0 where
  pub task : Task S
  pub error : Option RefreshError
  pub world : W

module _ {W S : Type 0} (env : Environment W S) where
  -- `r.observe()`
  unfoldable pub observe : Status → W → W
  observe status w = elim env.observe [ none ↦ w | some tell ↦ tell status w ]

  -- `r.record(ctx)`: a failure to record is only logged.
  unfoldable pub record_history : Status → W → W
  record_history status w = elim env.record_outcome [
    | none ↦ w
    | some keep ↦ elim status.last_outcome [
      | none ↦ w
      | some outcome ↦ if status.in_progress then w else keep outcome status.route_changes w
    ]
  ]

  -- `r.tracker.Start(); r.observe()`
  unfoldable pub begin_tracking : Task S → W → Task S × W
  unfolding start observe
  begin_tracking task w =
      let status : Status = start (env.now w) task.status in
      (record task { status = status }, observe status w)

  -- The tracker's completion, `r.observe()` and `r.record(ctx)`.
  unfoldable pub finish :
      Outcome → Text → ReconciliationResult → Task S → Option RefreshError → W → Refreshed W S
  unfolding complete observe record_history
  finish outcome summary result task error w =
      let status : Status = complete outcome summary result (env.now w) task.status in
      record {
        task = record task { status = status };
        error = error;
        world = record_history status (observe status w);
      }

  abbrev pub build_failed : Task S → RefreshError → W → Refreshed W S
  build_failed task e w = finish failure (text "runtime build failed") no_result task (some e) w

  abbrev pub publish : S → ReconciliationResult → Task S → W → Refreshed W S
  publish s result task w = finish success [] result (record task { published = some s }) none w

  -- What follows `synchronizeRoutes`.
  unfoldable pub settle : S → Task S → ReconciliationResult × Option Text × W → Refreshed W S
  unfolding finish
  settle s task (result, error, w) = elim error [
    | some e ↦
        finish failure (text "route synchronization failed") result task
          (some (synchronize_routes e)) w
    | none ↦ publish s result task w
  ]

  -- `synchronizeRoutes`, unless there is no synchronizer, and what follows it.
  unfoldable pub synchronize_and_publish : S → Task S → W → Refreshed W S
  unfolding settle
  synchronize_and_publish s task w = elim env.synchronizer [
    | absent ↦ publish s no_result task w
    | production run ↦ settle s task (run request (some s) w)
    | custom run ↦ settle s task (run request (some s) w)
  ]

  -- The inventory is filled before the production synchronizer runs, and only then.
  unfoldable pub fill_inventory : S → W → Result Text (Unit {0}) × W
  fill_inventory s w = elim env.synchronizer [
    | absent ↦ (ok tt, w)
    | production run ↦ env.refresh_inventory s w
    | custom run ↦ (ok tt, w)
  ]

  unfoldable pub refresh : Task S → W → Refreshed W S
  refresh task w =
      let (acquired, w1) = env.acquire w in
      elim acquired [
        | err e ↦ record { task = task; error = some (not_acquired e); world = w1 }
        | ok _ ↦
            let (tracked, w2) = begin_tracking task w1 in
            let (built, w3) = build env w2 in
            elim built [
              | err e ↦ build_failed tracked (build_services e) w3
              | ok none ↦
                  finish not_configured [] no_result (record tracked { published = none }) none w3
              | ok (some s) ↦
                  let (filled, w4) = fill_inventory s w3 in
                  elim filled [
                    | err e ↦ build_failed tracked (refresh_inventory e) w4
                    | ok _ ↦ synchronize_and_publish s tracked w4
                  ]
            ]
      ]
