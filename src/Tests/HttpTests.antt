-- ===== src/Tests/HttpTests.antt =====
-- Tests and examples for the management API: a server whose world is the policies, the recorded events
-- and what the limiter says. The header "operator" is the operator's, and "viewer" a viewer's.
use pelican_mc_router.Prelude.{
  ◌≡◌, ◌≢◌, ◌⊎◌, ◌↔◌, refl, true, Option, none, some, List, [], ◌∷◌, ◌++◌, arith, ◌==◌,
  if◌then◌else◌, Result, ok, err, all, any,
}
use pelican_mc_router.Prelude.Int.{ℤ}
use pelican_mc_router.Text.{Text, text, text_eq}
use pelican_mc_router.Models.{Policy}
use pelican_mc_router.Runtime.Status.{
  new_status, success, failure, Event, started, ended, track_all,
}
use pelican_mc_router.Router.Result.{no_result}
use pelican_mc_router.History.Actions.{ActionEvent}
use pelican_mc_router.Http.{
  Error, other, access_forbidden, setup_not_active, Json, Request, plain_text, write_json, is_error,
}
use pelican_mc_router.Http.Server.{Server, RoutePolicyStore, Authorizer, record_action, decode_json}
use pelican_mc_router.Http.Authorize.{management_authorize, dashboard_authorization_error}
use pelican_mc_router.Http.Policies.{create_route_policy, create_with, policy_to_create}
use pelican_mc_router.Http.Reading.{ready}
use pelican_mc_router.Http.Reading.Tracked.{last_ended, ready-tracks}
use pelican_mc_router.Http.Routes.{post_policies, serve}
use pelican_mc_router.Http.Routes.Keeps.{Reads, Keeping}
use pelican_mc_router.Http.Routes.Guarded.{MayChange, serve-IsGuarded}
use pelican_mc_router.Http.Routes.Events.{Logs, Audits}
use pelican_mc_router.Http.Routes.Audited.{serve-IsAudited}
use pelican_mc_router.Tests.Data.{ascii}

record World : Type 0 where
  policies : List Policy
  log : List ActionEvent

abbrev world : World
world = record { policies = []; log = [] }

abbrev events : List Event
events =
    started 1
    ∷ ended failure (text "timeout") no_result 2
    ∷ started 3
    ∷ ended success [] no_result 4
    ∷ []

abbrev store : RoutePolicyStore World
store = record {
  list = λ w. (ok w.policies, w);
  create = λ p w. (ok p, record w { policies = p ∷ w.policies });
  update = λ p n w. (err (other ∷ []), w);
  delete = λ uuid n w. (err (other ∷ []), w);
}

abbrev auth : Authorizer World
auth = record {
  authorize = λ r w. (if r.authorization == text "viewer" then ok tt else err (other ∷ []), w);
  authorize_operator =
      λ r w. (if r.authorization == text "operator" then ok tt else err (access_forbidden ∷ []), w);
}

abbrev recorder : ActionEvent → World → Result Error (Unit {0}) × World
recorder e w = (ok tt, record w { log = w.log ++ e ∷ [] })

abbrev server : Server World
server = record {
  discovery = λ w. none;
  routing = λ w. none;
  setup = record {
    is_setup_complete = λ w. (ok true, w);
    setup = λ value w. (err (other ∷ []), w);
    update = λ value w. (err (setup_not_active ∷ []), w);
  };
  reconciliation_status = λ w. track_all new_status events;
  metrics = λ w. (write_json 200 (plain_text []), w);
  build = record { version = text "1.0.0"; revision = text "abc" };
  dashboard = none;
  dashboard_auth = none;
  dashboard_refresh = none;
  bootstrap_auth = none;
  management_auth = some auth;
  action_limiter = none;
  route_policies = some store;
  operational_history = none;
  action_history_reader = none;
  action_history = some recorder;
}

-- A body is "policy" or it is refused.
abbrev json : Json
json = record {
  policy_create = λ body.
      if body == text "policy"
      then some (
        record {
          server_uuid = some (text "u-1");
          primary_hostname = some [];
          aliases = some [];
          excluded = some true;
        },
        [],
      )
      else none;
  policy_update = λ body. none;
  setup_request = λ body. none;
}

abbrev request_of : Text → Text → Request
request_of who body = record {
  body = body;
  server_uuid = [];
  limit = [];
  revision = [];
  csrf = [];
  authorization = who;
}

abbrev creation : Request
creation = request_of (text "operator") (text "policy")

served : Unit {0}
unfolding serve management_authorize create_route_policy create_with policy_to_create decode_json
    record_action dashboard_authorization_error is_error text_eq all any
served = tt

create_test : (serve server json post_policies creation world).0.status ≡ 201
unfolding served
create_test = refl

create_recorded :
    (serve server json post_policies creation world).1.log
    ≡ record { action = text "route_policy_mutation"; outcome = text "success" } ∷ []
unfolding served
create_recorded = refl

viewer_refused :
    (serve server json post_policies (request_of (text "viewer") (text "policy")) world).0.status
    ≡ 403
unfolding served
viewer_refused = refl

for_some :
    {A : Type 0} (P : A → Type 0) (x : A)
    → P x
    → (y : A) → ◌≡◌ {A = Option A} (some x) (some y)
    → P y
for_some P x here y h = let e : y ≡ x = cc in rw e here

abbrev policies_of : World → List Policy
policies_of w = w.policies

server-Reads : Reads policies_of server
server-Reads = record {
  discovery = λ w call h. absurd (ground arith);
  routing = λ w call h. absurd (ground arith);
  is_setup_complete = λ w. refl;
  metrics = λ w. refl;
  dashboard = λ call h. absurd (ground arith);
  dashboard_auth = λ a h. absurd (ground arith);
  bootstrap_auth = λ call h. absurd (ground arith);
  management_auth =
      for_some
        (λ (a : Authorizer World).
          (r : Request)
          → Keeping policies_of (a.authorize r) × Keeping policies_of (a.authorize_operator r))
        auth (λ r. (λ w. refl, λ w. refl));
  list_policies =
      for_some (λ (s : RoutePolicyStore World). Keeping policies_of s.list) store (λ w. refl);
  operational_history = λ call h. absurd (ground arith);
  action_history_reader = λ call h. absurd (ground arith);
  action_history =
      for_some
        (λ (f : ActionEvent → World → Result Error (Unit {0}) × World).
          (e : ActionEvent) → Keeping policies_of (f e))
        recorder (λ e w. refl);
}

serve-IsGuarded_example :
    (policies_of (serve server json post_policies creation world).1 ≡ [])
    ⊎ MayChange server creation world post_policies
serve-IsGuarded_example =
    serve-IsGuarded policies_of server server-Reads json post_policies creation world

abbrev log_of : World → List ActionEvent
log_of w = w.log

server-Logs : Logs log_of server
server-Logs = record {
  append = recorder;
  action_history = refl;
  adds = λ e w. refl;
  create =
      for_some
        (λ (s : RoutePolicyStore World).
          (p : Policy) (w : World) → log_of (s.create p w).1 ≡ log_of w)
        store (λ p w. refl);
  update =
      for_some
        (λ (s : RoutePolicyStore World).
          (p : Policy) (n : ℤ) (w : World) → log_of (s.update p n w).1 ≡ log_of w)
        store (λ p n w. refl);
  delete =
      for_some
        (λ (s : RoutePolicyStore World).
          (uuid : Text) (n : ℤ) (w : World) → log_of (s.delete uuid n w).1 ≡ log_of w)
        store (λ uuid n w. refl);
  update_settings = λ value w. refl;
  limiter = λ allow h. absurd (ground arith);
  management_auth =
      for_some
        (λ (a : Authorizer World).
          (r : Request) (w : World) → log_of (a.authorize_operator r w).1 ≡ log_of w)
        auth (λ r w. refl);
}

operator_allowed : (auth.authorize_operator creation world).0 ≡ ok tt
unfolding text_eq
operator_allowed = refl

serve-IsAudited_example :
    Audits log_of server server-Logs
      (text "route_policy_mutation")
      world
      (serve server json post_policies creation world)
serve-IsAudited_example =
    serve-IsAudited log_of server server-Logs json post_policies (text "route_policy_mutation") refl
      auth refl creation world operator_allowed

ready-tracks_example :
    (((ready server creation world).0.status ≡ 200) ↔ (
      ((server.setup.is_setup_complete world).0 ≡ ok true)
      × (last_ended none events ≡ some success)))
    × ((ready server creation world).0.status ≢ 200 → (ready server creation world).0.status ≡ 503)
ready-tracks_example = ready-tracks server creation world events refl
