-- ===== src/Http.antt =====
-- backend/internal/http: what a request, a reply and the server's services are. The decoded JSON
-- values and the bodies of the replies are kept as values, before they are encoded.
pub mod Readiness
pub mod Server
pub mod Authorize
pub mod Policies
pub mod Histories
pub mod Settings
pub mod Dashboard
pub mod Reading
pub mod Routes
use pelican_mc_router.Prelude.{
  ℕ, Bool, true, false, Option, none, some, List, [], ◌∷◌, any, eqb, Result,
}
use pelican_mc_router.Prelude.Int.{ℤ}
use pelican_mc_router.Text.{Text}
use pelican_mc_router.Models.{MinecraftServer, Policy}
use pelican_mc_router.Router.{Route}
use pelican_mc_router.Runtime.Status.{Status}
use pelican_mc_router.History.{Row}
use pelican_mc_router.History.Actions.{ActionEvent}
use pelican_mc_router.History.Operations.{OperationEvent}

-- The errors that the handlers ask for by `errors.Is`, and any other.
pub data Cause : Type 0 where
  canceled deadline_exceeded policy_not_found policy_conflict policy_invalid already_configured
        missing_router_domain setup_not_active access_forbidden other :
      Cause

-- An error is the chain of errors that `errors.Is` walks.
abbrev pub Error : Type 0
Error = List Cause

cause_number : Cause → ℕ
cause_number canceled = 0
cause_number deadline_exceeded = 1
cause_number policy_not_found = 2
cause_number policy_conflict = 3
cause_number policy_invalid = 4
cause_number already_configured = 5
cause_number missing_router_domain = 6
cause_number setup_not_active = 7
cause_number access_forbidden = 8
cause_number other = 9

-- `errors.Is(err, target)`
unfoldable pub is_error : Error → Cause → Bool
unfolding cause_number
is_error e target = any (λ c. eqb (cause_number c) (cause_number target)) e

pub record BuildInfo : Type 0 where
  pub version : Text
  pub revision : Text

-- `dashboard.Snapshot` and `statusResponse`, which have the same values.
pub record StatusPage : Type 0 where
  pub build : BuildInfo
  pub setup_completed : Bool
  pub ready : Bool
  pub readiness_reason : Text
  pub reconciliation : Status

pub data Payload : Type 0 where
  no_body : Payload
  plain_text json_error redirect : Text → Payload
  readiness_body : Bool → Text → Payload
  setup_body : Bool → Payload
  status_body : StatusPage → Payload
  servers_body : List MinecraftServer → Payload
  routes_body : List Route → Payload
  preview_body : ℕ → List Route → Payload
  policies_body : List Policy → Payload
  policy_body : Policy → Payload
  actions_body : List (Row ActionEvent) → Payload
  operations_body : List (Row OperationEvent) → Payload
  reconciliation_body : Status → Payload
  dashboard_body : StatusPage → Bool → List (Row OperationEvent) → Payload

pub record Reply : Type 0 where
  pub status : ℕ
  pub payload : Payload

-- `writeJSON` and `writeJSONError`
abbrev pub write_json : ℕ → Payload → Reply
write_json status payload = record { status = status; payload = payload }

abbrev pub write_json_error : ℕ → Text → Reply
write_json_error status message = write_json status (json_error message)

-- `routePolicyCreateRequest`, `routePolicyUpdateRequest` and `setupRequest`; a pointer that may be nil
-- is an option.
pub record PolicyCreateRequest : Type 0 where
  pub server_uuid : Option Text
  pub primary_hostname : Option Text
  pub aliases : Option (List Text)
  pub excluded : Option Bool

pub record PolicyUpdateRequest : Type 0 where
  pub primary_hostname : Option Text
  pub aliases : Option (List Text)
  pub excluded : Option Bool
  pub revision : Option ℤ

pub record SetupRequest : Type 0 where
  pub pelican_url : Text
  pub pelican_secret_name : Text
  pub router_domain : Text

-- `encoding/json` with unknown fields refused: the first value of a body, and what follows it.
pub record Json : Type 0 where
  pub policy_create : Text → Option (PolicyCreateRequest × Text)
  pub policy_update : Text → Option (PolicyUpdateRequest × Text)
  pub setup_request : Text → Option (SetupRequest × Text)

-- What the handlers read of a request: the bytes of its body, the parameter `serverUUID` that chi
-- takes from the path, two parameters of the query ("" if missing), and two headers.
pub record Request : Type 0 where
  pub body : Text
  pub server_uuid : Text
  pub limit : Text
  pub revision : Text
  pub csrf : Text
  pub authorization : Text
