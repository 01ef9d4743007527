-- ===== src/Http/Server.antt =====
-- `Server` of backend/internal/http/server.go, with what its handlers share. Each service is an
-- interface of the source: an action on a world; a service that may be nil is an option.
use pelican_mc_router.Prelude.{
  Bool, ◌||◌, Option, none, some, List, all, length, ltb, eqb, if◌then◌else◌, Result,
}
use pelican_mc_router.Prelude.Int.{ℤ}
use pelican_mc_router.Text.{Text, text}
use pelican_mc_router.Models.{MinecraftServer, Policy}
use pelican_mc_router.Router.{Route}
use pelican_mc_router.Runtime.Status.{Status}
use pelican_mc_router.Runtime.Build.{Settings}
use pelican_mc_router.History.{Row}
use pelican_mc_router.History.Actions.{ActionEvent}
use pelican_mc_router.History.Operations.{OperationEvent}
use pelican_mc_router.Http.{
  Error, canceled, deadline_exceeded, is_error, BuildInfo, StatusPage, Reply, Request,
  write_json_error,
}

pub data LimitedAction : Type 0 where
  limited_setup limited_settings limited_reconcile : LimitedAction

pub record SetupService (W : Type 0) : Type 0 where
  pub is_setup_complete : W → Result Error Bool × W
  pub setup : Settings → W → Result Error (Unit {0}) × W
  pub update : Settings → W → Result Error (Unit {0}) × W

pub record RoutePolicyStore (W : Type 0) : Type 0 where
  pub list : W → Result Error (List Policy) × W
  pub create : Policy → W → Result Error Policy × W
  pub update : Policy → ℤ → W → Result Error Policy × W
  pub delete : Text → ℤ → W → Result Error (Unit {0}) × W

-- `DashboardAuthorizer`
pub record Authorizer (W : Type 0) : Type 0 where
  pub authorize : Request → W → Result Error (Unit {0}) × W
  pub authorize_operator : Request → W → Result Error (Unit {0}) × W

pub record Server (W : Type 0) : Type 0 where
  pub discovery : W → Option (W → Result Error (List MinecraftServer) × W)
  pub routing : W → Option (W → Result Error (List Route) × W)
  pub setup : SetupService W
  pub reconciliation_status : W → Status
  pub metrics : W → Reply × W
  pub build : BuildInfo
  pub dashboard : Option (W → Result Error StatusPage × W)
  pub dashboard_auth : Option (Authorizer W)
  pub dashboard_refresh : Option (W → Result Error (Unit {0}) × W)
  pub bootstrap_auth : Option (Request → W → Result Error (Unit {0}) × W)
  pub management_auth : Option (Authorizer W)
  pub action_limiter : Option (LimitedAction → W → Bool × W)
  pub route_policies : Option (RoutePolicyStore W)
  pub operational_history : Option (ℤ → W → Result Error (List (Row OperationEvent)) × W)
  pub action_history_reader : Option (ℤ → W → Result Error (List (Row ActionEvent)) × W)
  pub action_history : Option (ActionEvent → W → Result Error (Unit {0}) × W)

abbrev pub Handler : Type 0 → Type 0
Handler W = Request → W → Reply × W

unfoldable pub outcome_for_error : Error → Text
outcome_for_error e =
    if is_error e canceled || is_error e deadline_exceeded then text "canceled" else text "failure"

-- `decodeJSON`: one value in at most 1 MiB, and only white space after it.
unfoldable pub decode_json : {A : Type 0} → (Text → Option (A × Text)) → Text → Option A
decode_json decode body = if ltb 1048576 (length body) then none else elim (decode body) [
  | none ↦ none
  | some (value, rest) ↦
      if all (λ c. eqb c 9 || (eqb c 10 || (eqb c 13 || eqb c 32))) rest then some value else none
]

module _ {W : Type 0} (s : Server W) where
  -- An error of the history is only logged.
  unfoldable pub record_action : Text → Text → W → W
  record_action action outcome w = elim s.action_history [
    | none ↦ w
    | some append ↦ (append (record { action = action; outcome = outcome }) w).1
  ]

  -- The reply that ends a request to a handler whose action is not allowed, or none.
  unfoldable pub allow_action : LimitedAction → W → Option Reply × W
  allow_action action w = elim s.action_limiter [
    | none ↦ (none, w)
    | some allow ↦
        let (allowed, w1) = allow action w in
        if allowed then (none, w1) else (
          some (write_json_error 429 (text "action temporarily unavailable")),
          record_action (text "rate_limit_rejection") (text "denied") w1,
        )
  ]
