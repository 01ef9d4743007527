-- ===== src/Router/Synchronizer.antt =====
-- backend/internal/router/synchronizer.go: one synchronization of a route source with a
-- controller. Both are interfaces of the source, as is the context.
pub mod Laws
use pelican_mc_router.Prelude.{
  ◌≡◌, Bool, true, false, Option, none, some, List, [], ◌∷◌, length, Result, ok, err,
}
use pelican_mc_router.Text.{Text}
use pelican_mc_router.Router.{Route}
use pelican_mc_router.Router.Result.{ReconciliationResult, no_result}

-- A controller that counts its changes, and one that only reports an error.
pub data RouteController (W : Type 0) : Type 0 where
  diagnostics : (List Route → W → ReconciliationResult × Option Text × W) → RouteController W
  plain : (List Route → W → Option Text × W) → RouteController W

abbrev pub RouteSource : Type 0 → Type 0
RouteSource W = W → Result Text (List Route) × W

pub data SyncError : Type 0 where
  route_source_required : SyncError
  canceled generate_routes reconcile_routes : Text → SyncError

pub record Synced (W : Type 0) : Type 0 where
  pub result : ReconciliationResult
  pub error : Option SyncError
  pub world : W

abbrev pub desired_only : List Route → ReconciliationResult
desired_only routes = record no_result { desired = length routes }

abbrev wrap : Option Text → Option SyncError
wrap none = none
wrap (some e) = some (reconcile_routes e)

abbrev give_up : {W : Type 0} → SyncError → W → Synced W
give_up e w = record { result = no_result; error = some e; world = w }

module _ {W : Type 0} where
  unfoldable pub reconcile : RouteController W → List Route → W → Synced W
  reconcile (diagnostics run) routes w =
      let (result, error, w1) = run routes w in
      record { result = result; error = wrap error; world = w1 }
  reconcile (plain run) routes w =
      let (error, w1) = run routes w in
      record { result = desired_only routes; error = wrap error; world = w1 }

  module _ (context_err : W → Result Text (Unit {0}) × W) (controller : RouteController W) where
    unfoldable pub sync_with_result : Option (RouteSource W) → W → Synced W
    unfolding reconcile
    sync_with_result none w = give_up route_source_required w
    sync_with_result (some source) w =
        let (live, w1) = context_err w in
        elim live [
          | err e ↦ give_up (canceled e) w1
          | ok _ ↦
              let (generated, w2) = source w1 in
              elim generated [
                | err e ↦ give_up (generate_routes e) w2
                | ok routes ↦
                    let (still_live, w3) = context_err w2 in
                    elim still_live [
                      | err e ↦ give_up (canceled e) w3
                      | ok _ ↦ reconcile controller routes w3
                    ]
              ]
        ]
