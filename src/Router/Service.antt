-- ===== src/Router/Service.antt =====
-- `New` and `Service.Routes` of backend/internal/router/router.go, and `ParseEngine` of engine.go.
-- Discovery and the policy source are interfaces of the source: actions on a world `W`.
pub mod Laws
use pelican_mc_router.Prelude.{
  ◌≡◌, Bool, true, false, ◌||◌, Option, none, some, List, [], ◌∷◌, ◌==◌, if◌then◌else◌, Result, ok,
  err, ◌>>=◌,
}
use pelican_mc_router.Prelude.Dict.{Dict, insert}
use pelican_mc_router.Text.{Text, text, text_eq, Unicode, trim_space}
use pelican_mc_router.Models.{MinecraftServer, Policy}
use pelican_mc_router.Router.{Route}
use pelican_mc_router.Router.Planner.{Planner, PlanError, plan, new_planner, NewPlannerError}

abbrev pub Discover : Type 0 → Type 0
Discover W = W → Result Text (List MinecraftServer) × W

abbrev pub ListPolicies : Type 0 → Type 0
ListPolicies W = W → Result Text (List Policy) × W

pub record Service (W : Type 0) : Type 0 where
  pub discover : Discover W
  pub planner : Planner
  pub policies : Option (ListPolicies W)

pub data RoutesError : Type 0 where
  discover_servers load_policies : Text → RoutesError
  plan_routes : PlanError → RoutesError

pub data NewServiceError : Type 0 where
  nil_discovery_service : NewServiceError
  planner_error : NewPlannerError → NewServiceError

-- The map that the loop over the stored policies builds.
unfoldable pub policy_table : Dict Text Policy → List Policy → Dict Text Policy
policy_table table [] = table
policy_table table (policy ∷ stored) = policy_table (insert policy.server_uuid policy table) stored

abbrev pub finish_plan : Result PlanError (List Route) → Result RoutesError (List Route)
finish_plan (ok routes) = ok routes
finish_plan (err e) = err (plan_routes e)

module _ ⦃u : Unicode⦄ {W : Type 0} where
  unfoldable pub new :
      Option (Discover W) → Text → Option (ListPolicies W) → Result NewServiceError (Service W)
  new none domain policies = err nil_discovery_service
  new (some discover) domain policies = elim (new_planner domain) [
    | err e ↦ err (planner_error e)
    | ok planner ↦ ok (record { discover = discover; planner = planner; policies = policies })
  ]

  unfoldable pub routes : Service W → W → Result RoutesError (List Route) × W
  routes s w =
      let (discovered, w1) = s.discover w in
      elim discovered [
        | err e ↦ (err (discover_servers e), w1)
        | ok servers ↦ elim s.policies [
          | none ↦ (finish_plan (plan s.planner servers []), w1)
          | some list ↦
              let (listed, w2) = list w1 in
              elim listed [
                | err e ↦ (err (load_policies e), w2)
                | ok stored ↦ (finish_plan (plan s.planner servers (policy_table [] stored)), w2)
              ]
        ]
      ]

pub data Engine : Type 0 where
  mc_router infrared : Engine

-- `err` is `ErrUnsupportedEngine` with the text as given.
unfoldable pub parse_engine : ⦃u : Unicode⦄ → Text → Result Text Engine
parse_engine value =
    let name = trim_space value in
    if name == text "mc-router"
    then ok mc_router
    else if name == text "infrared"
    then ok infrared
    else err value
