-- ===== src/Router/Synchronizer/Laws.antt =====
-- About `SyncWithResult` of backend/internal/router/synchronizer.go: what reaches the controller.
use pelican_mc_router.Prelude.{◌≡◌, ◌≢◌, ◌⊎◌, none, some, List, arith, Result, ok, err}
use pelican_mc_router.Text.{Text}
use pelican_mc_router.Router.{Route}
use pelican_mc_router.Router.Result.{no_result}
use pelican_mc_router.Router.Synchronizer.{
  RouteController, RouteSource, sync_with_result, reconcile,
}

module _ {W : Type 0} (context_err : W → Result Text (Unit {0}) × W)
    (controller : RouteController W) (source : RouteSource W) (w : W) where
  -- If the context is done or the source fails, the world is what the source left, and nothing is
  -- counted; the controller is not called, so any other would have done the same.
  pub sync-without_routes :
      (e : Text)
      → ((context_err w).0 ≡ err e) ⊎ ((source (context_err w).1).0 ≡ err e)
      → (other : RouteController W)
      → (sync_with_result context_err controller (some source) w
          ≡ sync_with_result context_err other (some source) w)
        × ((sync_with_result context_err controller (some source) w).result ≡ no_result)
        × ((sync_with_result context_err controller (some source) w).error ≢ none)
  unfolding sync_with_result
  sync-without_routes e failed other = (ground arith, ground arith, λ fine. ground arith)

  -- Otherwise the controller is handed exactly the routes of the source, after one more look at
  -- the context.
  pub sync-with_routes :
      (routes : List Route)
      → (context_err w).0 ≡ ok tt
      → (source (context_err w).1).0 ≡ ok routes
      → (context_err (source (context_err w).1).1).0 ≡ ok tt
      → sync_with_result context_err controller (some source) w
        ≡ reconcile controller routes (context_err (source (context_err w).1).1).1
  unfolding sync_with_result
  sync-with_routes routes live generated still = ground arith
