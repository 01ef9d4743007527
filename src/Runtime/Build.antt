-- ===== src/Runtime/Build.antt =====
-- Building runtime services: `buildRuntimeServices`, `buildRuntimeServicesFor` and
-- `previousRoutingService` of backend/internal/runtime/refresh_task.go. The stores, the resolver,
-- the synchronizer and the observers are interfaces of the source; `S` stands for the inventory
-- and routing service that are built together, and `new_services` for the constructors called
-- with the settings: `pelican.NewClient`, `discovery.New`, `NewInventory` and `router.New`.
use pelican_mc_router.Prelude.{
  Bool, true, false, Option, none, some, is_empty, if◌then◌else◌, Result, ok, err,
}
use pelican_mc_router.Prelude.{ℕ}
use pelican_mc_router.Text.{Text}
use pelican_mc_router.Router.Result.{ReconciliationResult}
use pelican_mc_router.Runtime.Status.{Outcome, Status}

-- backend/internal/settings/settings.go
pub record Settings : Type 0 where
  pub pelican_url : Text
  pub pelican_api_key : Text
  pub pelican_secret_name : Text
  pub router_domain : Text

-- The caller's context, and the fresh one with a timeout under which a compensation runs.
pub data Scope : Type 0 where
  request cleanup : Scope

-- One synchronization with the routes of a source; `none` is `emptyRouteSource`.
abbrev pub Synchronize : Type 0 → Type 0 → Type 0
Synchronize W S = Scope → Option S → W → ReconciliationResult × Option Text × W

-- No synchronizer, the production `router.Synchronizer`, or another one.
pub data Synchronizer (W S : Type 0) : Type 0 where
  absent : Synchronizer W S
  production : Synchronize W S → Synchronizer W S
  custom : Synchronize W S → Synchronizer W S

pub record Environment (W S : Type 0) : Type 0 where
  pub context_err : W → Result Text (Unit {0}) × W
  pub acquire : W → Result Text (Unit {0}) × W
  pub is_setup_complete : W → Result Text Bool × W
  pub load : W → Result Text Settings × W
  pub resolve : Option (Text → W → Result Text Text × W)
  pub new_services : Settings → Result Text S
  pub refresh_inventory : S → W → Result Text (Unit {0}) × W
  pub synchronizer : Synchronizer W S
  pub now : W → ℕ
  pub observe : Option (Status → W → W)
  pub record_outcome : Option (Outcome → ReconciliationResult → W → W)

pub data BuildError : Type 0 where
  setup_status load_settings resolve_credential new_client : Text → BuildError
  no_resolver : BuildError

module _ {W S : Type 0} (env : Environment W S) where
  abbrev construct : Settings → Result BuildError S
  construct value = elim (env.new_services value) [ err e ↦ err (new_client e) | ok s ↦ ok s ]

  unfoldable pub build_for : Settings → W → Result BuildError S × W
  build_for value w =
      if is_empty value.pelican_secret_name then (construct value, w) else elim env.resolve [
        | none ↦ (err no_resolver, w)
        | some resolve ↦
            let (secret, w1) = resolve value.pelican_secret_name w in
            elim secret [
              | err e ↦ (err (resolve_credential e), w1)
              | ok key ↦ (construct (record value { pelican_api_key = key }), w1)
            ]
      ]

  abbrev wrap_some : Result BuildError S × W → Result BuildError (Option S) × W
  wrap_some (r, w) = (elim r [ err e ↦ err e | ok s ↦ ok (some s) ], w)

  -- Also `previousRoutingService`, which reads the same store in the same order.
  unfoldable pub build : W → Result BuildError (Option S) × W
  build w =
      let (complete, w1) = env.is_setup_complete w in
      elim complete [
        | err e ↦ (err (setup_status e), w1)
        | ok false ↦ (ok none, w1)
        | ok true ↦
            let (loaded, w2) = env.load w1 in
            elim loaded [
              | err e ↦ (err (load_settings e), w2)
              | ok value ↦ wrap_some (build_for value w2)
            ]
      ]
