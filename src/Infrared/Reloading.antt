-- ===== src/Infrared/Reloading.antt =====
-- backend/internal/router/infrared/reloading_controller.go: the reload that is pending after
-- changes. The inner controller and the reloader are interfaces of the source.
pub mod Laws
use pelican_mc_router.Prelude.{Bool, true, false, ◌||◌, Option, none, some, List, Result, ok, err}
use pelican_mc_router.Text.{Text}
use pelican_mc_router.Router.{Route}

pub data ReloadingError (E : Type 0) : Type 0 where
  reconcile_configurations : E → ReloadingError E
  context_done reload_failed : Text → ReloadingError E

pub record Reloaded (W E : Type 0) : Type 0 where
  pub reload_pending : Bool
  pub error : Option (ReloadingError E)
  pub world : W

module _ {W E : Type 0} (context_err : W → Result Text (Unit {0}) × W)
    (inner : List Route → W → Result E Bool × W) (reload : W → Result Text (Unit {0}) × W) where
  unfoldable pub reconcile : Bool → List Route → W → Reloaded W E
  reconcile reload_pending routes w =
      let (reconciled, w1) = inner routes w in
      elim reconciled [
        | err e ↦ record {
          reload_pending = reload_pending;
          error = some (reconcile_configurations e);
          world = w1;
        }
        | ok changed ↦ elim (changed || reload_pending) [
          | false ↦ record { reload_pending = false; error = none; world = w1 }
          | true ↦
              let (live, w2) = context_err w1 in
              elim live [
                | err e ↦ record {
                  reload_pending = true;
                  error = some (context_done e);
                  world = w2;
                }
                | ok _ ↦
                    let (reloaded, w3) = reload w2 in
                    elim reloaded [
                      | err e ↦ record {
                        reload_pending = true;
                        error = some (reload_failed e);
                        world = w3;
                      }
                      | ok _ ↦ record { reload_pending = false; error = none; world = w3 }
                    ]
              ]
        ]
      ]
