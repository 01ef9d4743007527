-- ===== src/Infrared/Reloading/Laws.antt =====
-- About `Reconcile` of backend/internal/router/infrared/reloading_controller.go: the pending reload.
use pelican_mc_router.Prelude.{
  ◌≡◌, ◌≢◌, Bool, true, false, ◌||◌, none, List, arith, Result, ok, err,
}
use pelican_mc_router.Text.{Text}
use pelican_mc_router.Router.{Route}
use pelican_mc_router.Infrared.Reloading.{Reloaded, reconcile}

module _ {W E : Type 0} (context_err : W → Result Text (Unit {0}) × W)
    (inner : List Route → W → Result E Bool × W) (reload : W → Result Text (Unit {0}) × W)
    (pending : Bool) (routes : List Route) (w : W) where
  abbrev outcome : Reloaded W E
  outcome = reconcile context_err inner reload pending routes w

  -- If the files were reconciled, a reload is owed afterwards exactly if one was owed or files
  -- changed, and the reconciliation ended in an error.
  pub reconcile-pending :
      (changed : Bool)
      → (inner routes w).0 ≡ ok changed
      → (outcome.error ≡ none → outcome.reload_pending ≡ false)
        × (outcome.error ≢ none → outcome.reload_pending ≡ true)
        × (outcome.error ≢ none → (changed || pending) ≡ true)
  unfolding reconcile
  reconcile-pending changed done =
      (λ fine. ground arith, λ failed. ground arith, λ failed. ground arith)

  -- If a reload is owed or files changed, a reconciliation without error has reloaded last.
  pub reconcile-reloads :
      (changed : Bool)
      → (inner routes w).0 ≡ ok changed
      → (changed || pending) ≡ true
      → outcome.error ≡ none
      → ((reload (context_err (inner routes w).1).1).0 ≡ ok tt)
        × (outcome.world ≡ (reload (context_err (inner routes w).1).1).1)
  unfolding reconcile
  reconcile-reloads changed done owed fine = (ground arith, ground arith)

module _ {W E : Type 0} (context_err : W → Result Text (Unit {0}) × W)
    (inner : List Route → W → Result E Bool × W) (reload : W → Result Text (Unit {0}) × W)
    (routes later : List Route) (w : W) (e : E) where
  -- No reload is owed after a reconciliation of the files that failed, even one that failed after
  -- it had changed files; if the next one finds nothing to change, it ends without error and no
  -- reload has been made.
  pub reconcile-loses_reload :
      (inner routes w).0 ≡ err e
      → (inner later (inner routes w).1).0 ≡ ok false
      → reconcile context_err inner reload
          (reconcile context_err inner reload false routes w).reload_pending
          later
          (reconcile context_err inner reload false routes w).world
        ≡ record {
          reload_pending = false;
          error = none;
          world = (inner later (inner routes w).1).1;
        }
  unfolding reconcile
  reconcile-loses_reload failed idle = ground arith
