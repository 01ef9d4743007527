-- ===== src/Runtime/Activate.antt =====
-- `Activate`, `ActivateSetup` and `activateLocked` of backend/internal/runtime/refresh_task.go,
-- with the compensation.
pub mod Laws
pub mod Tracked
pub mod Views
pub mod Persisted
pub mod Staged
use pelican_mc_router.Prelude.{
  ◌≡◌, Bool, true, false, Option, none, some, List, [], ◌∷◌, Result, ok, err, if◌then◌else◌,
}
use pelican_mc_router.Text.{Text, text}
use pelican_mc_router.Router.Result.{ReconciliationResult, no_result}
use pelican_mc_router.Runtime.Status.{Outcome, success, failure, Status}
use pelican_mc_router.Runtime.Build.{
  Environment, Settings, BuildError, Synchronize, Synchronizer, absent, production, custom, request,
  cleanup, build, build_for,
}
use pelican_mc_router.Runtime.Refresh.{
  Task, begin_tracking, finish, fill_inventory, record_history, observe,
}

pub data ActivateError : Type 0 where
  not_acquired stage_candidate prepare_inventory synchronize_candidate context_done
        persist_candidate :
      Text → ActivateError
  build_candidate : BuildError → ActivateError

-- What `errors.Join` adds when the compensation fails too.
pub data CleanupError : Type 0 where
  build_compensation : BuildError → CleanupError
  compensate_candidate : Text → CleanupError

-- `published` is what the manager holds afterwards.
pub record Activated (W S : Type 0) : Type 0 where
  pub published : Option S
  pub result : ReconciliationResult
  pub error : Option ActivateError
  pub cleanup_error : Option CleanupError
  pub world : W

module _ {W S : Type 0} (env : Environment W S) (persist : W → Result Text (Unit {0}) × W) where
  abbrev pub fail :
      Option S → ReconciliationResult → ActivateError → Option CleanupError → W → Activated W S
  fail previous result e c w = record {
    published = previous;
    result = result;
    error = some e;
    cleanup_error = c;
    world = w;
  }

  abbrev pub restored : Option Text → Option CleanupError
  restored none = none
  restored (some e) = some (compensate_candidate e)

  -- `synchronizeRoutes(cleanup, r.synchronizer, restore)`
  abbrev pub restore_with :
      Synchronize W S
      → Option S
      → ReconciliationResult
      → ActivateError
      → Option S
      → W
      → Activated W S
  restore_with run previous result e restore w =
      let (_, failed, w1) = run cleanup restore w in fail previous result e (restored failed) w1

  -- `compensate`, where a synchronization was attempted: the previous runtime, or the one that is
  -- stored, or no route at all is synchronized again.
  unfoldable pub compensate :
      Synchronize W S → Option S → ReconciliationResult → ActivateError → W → Activated W S
  compensate run (some s) result e w = restore_with run (some s) result e (some s) w
  compensate run none result e w =
      let (built, w1) = build env w in
      elim built [
        | err b ↦ fail none result e (some (build_compensation b)) w1
        | ok stored ↦ restore_with run none result e stored w1
      ]

  abbrev pub published_now : S → ReconciliationResult → W → Activated W S
  published_now s result w = record {
    published = some s;
    result = result;
    error = none;
    cleanup_error = none;
    world = w;
  }

  -- The branch with a synchronizer.
  unfoldable pub activate_with : Synchronize W S → Option S → S → W → Activated W S
  activate_with run previous s w =
      let (result, failed, w1) = run request (some s) w in
      elim failed [
        | some e ↦ compensate run previous result (synchronize_candidate e) w1
        | none ↦
            let (live, w2) = env.context_err w1 in
            elim live [
              | err e ↦ compensate run previous result (context_done e) w2
              | ok _ ↦
                  let (kept, w3) = persist w2 in
                  elim kept [
                    | err e ↦ compensate run previous result (persist_candidate e) w3
                    | ok _ ↦ published_now s result w3
                  ]
            ]
      ]

  -- The branch without one, where `compensate` only returns the error.
  unfoldable pub activate_alone : Option S → S → W → Activated W S
  activate_alone previous s w =
      let (live, w1) = env.context_err w in
      elim live [
        | err e ↦ fail previous no_result (context_done e) none w1
        | ok _ ↦
            let (kept, w2) = persist w1 in
            elim kept [
              | err e ↦ fail previous no_result (persist_candidate e) none w2
              | ok _ ↦ published_now s no_result w2
            ]
      ]

  unfoldable pub activate_built : Synchronizer W S → Option S → S → W → Activated W S
  activate_built absent previous s w = activate_alone previous s w
  activate_built (production run) previous s w = activate_with run previous s w
  activate_built (custom run) previous s w = activate_with run previous s w

  unfoldable pub activate_locked : Settings → Option S → W → Activated W S
  activate_locked value previous w =
      let (built, w1) = build_for env value w in
      elim built [
        | err e ↦ fail previous no_result (build_candidate e) none w1
        | ok s ↦
            let (filled, w2) = fill_inventory env s w1 in
            elim filled [
              | err e ↦ fail previous no_result (prepare_inventory e) none w2
              | ok _ ↦ activate_built env.synchronizer previous s w2
            ]
      ]

pub record Activation (W S : Type 0) : Type 0 where
  pub task : Task S
  pub error : Option ActivateError
  pub world : W

module _ {W S : Type 0} (env : Environment W S) where
  -- `activateAndTrackLocked`: any failure is tracked as one of the runtime build.
  unfoldable pub activate_and_track :
      (W → Result Text (Unit {0}) × W) → Settings → Task S → W → Activation W S
  activate_and_track persist value task w =
      let (tracked, w1) = begin_tracking env task w in
      let a = activate_locked env persist value tracked.published w1 in
      let held : Task S = record tracked { published = a.published } in
      elim a.error [
        | some e ↦
            let f = finish env failure (text "runtime build failed") no_result held none a.world in
            record { task = f.task; error = some e; world = f.world }
        | none ↦
            let f = finish env success [] a.result held none a.world in
            record { task = f.task; error = none; world = f.world }
      ]

  unfoldable pub activate :
      (W → Result Text (Unit {0}) × W) → Settings → Task S → W → Activation W S
  activate persist value task w =
      let (acquired, w1) = env.acquire w in
      elim acquired [
        | err e ↦ record { task = task; error = some (not_acquired e); world = w1 }
        | ok _ ↦ activate_and_track persist value task w1
      ]

  -- `ActivateSetup`: the candidate is staged under the lock, and what is persisted is the
  -- promotion of the generation that was staged.
  unfoldable pub activate_setup :
      (W → Result Text Text × W)
      → (Text → W → Result Text (Unit {0}) × W)
      → Settings
      → Task S
      → W
      → Activation W S
  activate_setup stage promote value task w =
      let (acquired, w1) = env.acquire w in
      elim acquired [
        | err e ↦ record { task = task; error = some (not_acquired e); world = w1 }
        | ok _ ↦
            let (staged, w2) = stage w1 in
            elim staged [
              | err e ↦ record { task = task; error = some (stage_candidate e); world = w2 }
              | ok generation ↦ activate_and_track (promote generation) value task w2
            ]
      ]
