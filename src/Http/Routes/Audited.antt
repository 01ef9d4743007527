-- ===== src/Http/Routes/Audited.antt =====
-- About the mutating handlers of backend/internal/http/server.go and the sensitive actions that they
-- record.
use pelican_mc_router.Prelude.{◌≡◌, sym, true, Option, none, some, List, arith, ok}
use pelican_mc_router.Text.{Text, text, Unicode}
use pelican_mc_router.History.Actions.{ActionEvent}
use pelican_mc_router.Http.{Json, Request}
use pelican_mc_router.Http.Server.{Server, Authorizer, Handler}
use pelican_mc_router.Http.Authorize.{management_authorize}
use pelican_mc_router.Http.Policies.{create_route_policy, update_route_policy, delete_route_policy}
use pelican_mc_router.Http.Settings.{update_settings}
use pelican_mc_router.Http.Routes.{
  Endpoint, get_root, get_health, get_metrics, get_ready, get_status, get_dashboard, post_reconcile,
  get_servers, get_routes, get_preview, get_policies, get_operations, get_actions, post_policies,
  put_policy, delete_policy, get_setup, post_setup, put_settings, serve,
}
use pelican_mc_router.Http.Routes.Events.{Logs, Audits}
use pelican_mc_router.Http.Routes.Mutations.{
  create-Audits, update-Audits, delete-Audits, settings-Audits,
}

-- The action that a mutating endpoint records.
abbrev pub recorded_action : Endpoint → Option Text
recorded_action get_root = none
recorded_action get_health = none
recorded_action get_metrics = none
recorded_action get_ready = none
recorded_action get_status = none
recorded_action get_dashboard = none
recorded_action post_reconcile = none
recorded_action get_servers = none
recorded_action get_routes = none
recorded_action get_preview = none
recorded_action get_policies = none
recorded_action get_operations = none
recorded_action get_actions = none
recorded_action post_policies = some (text "route_policy_mutation")
recorded_action put_policy = some (text "route_policy_mutation")
recorded_action delete_policy = some (text "route_policy_mutation")
recorded_action get_setup = none
recorded_action post_setup = none
recorded_action put_settings = some (text "settings_update")

module _ {W : Type 0} (log : W → List ActionEvent) (s : Server W) (logs : Logs log s) where
  handler-Audits :
      (auth : Authorizer W)
      → s.management_auth ≡ some auth
      → (r : Request) (w : W) → (auth.authorize_operator r w).0 ≡ ok tt
      → (action : Text) (next : Handler W) → ((v : W) → Audits log s logs action v (next r v))
      → Audits log s logs action w (management_authorize s next true r w)
  unfolding management_authorize
  handler-Audits auth here r w allowed action next audits =
      let v : W = (auth.authorize_operator r w).1 in
      let reached : management_authorize s next true r w ≡ next r v = ground arith in
      rw (reached, sym (logs.management_auth auth here r w)) (audits v)

  -- A request of an authorized operator that changes a policy or the settings adds exactly one event to
  -- the action history: a success if the reply's status is below 300, a failure or a cancellation if it
  -- is 400 or more, and a denied rejection if the limiter refuses, with status 429. The history is
  -- assumed to add what it is given, and the other calls to add nothing.
  pub serve-IsAudited :
      ⦃u : Unicode⦄
      → (json : Json) (e : Endpoint) (action : Text) → recorded_action e ≡ some action
      → (auth : Authorizer W) → s.management_auth ≡ some auth
      → (r : Request) (w : W) → (auth.authorize_operator r w).0 ≡ ok tt
      → Audits log s logs action w (serve s json e r w)
  unfolding serve
  serve-IsAudited json get_root action h auth here r w allowed = absurd (ground arith)
  serve-IsAudited json get_health action h auth here r w allowed = absurd (ground arith)
  serve-IsAudited json get_metrics action h auth here r w allowed = absurd (ground arith)
  serve-IsAudited json get_ready action h auth here r w allowed = absurd (ground arith)
  serve-IsAudited json get_status action h auth here r w allowed = absurd (ground arith)
  serve-IsAudited json get_dashboard action h auth here r w allowed = absurd (ground arith)
  serve-IsAudited json post_reconcile action h auth here r w allowed = absurd (ground arith)
  serve-IsAudited json get_servers action h auth here r w allowed = absurd (ground arith)
  serve-IsAudited json get_routes action h auth here r w allowed = absurd (ground arith)
  serve-IsAudited json get_preview action h auth here r w allowed = absurd (ground arith)
  serve-IsAudited json get_policies action h auth here r w allowed = absurd (ground arith)
  serve-IsAudited json get_operations action h auth here r w allowed = absurd (ground arith)
  serve-IsAudited json get_actions action h auth here r w allowed = absurd (ground arith)
  serve-IsAudited json post_policies action h auth here r w allowed =
      let same : action ≡ text "route_policy_mutation" = ground arith in
      rw same (
        handler-Audits auth here r w allowed _ (create_route_policy s json)
          (create-Audits log s logs json r))
  serve-IsAudited json put_policy action h auth here r w allowed =
      let same : action ≡ text "route_policy_mutation" = ground arith in
      rw same (
        handler-Audits auth here r w allowed _ (update_route_policy s json)
          (update-Audits log s logs json r))
  serve-IsAudited json delete_policy action h auth here r w allowed =
      let same : action ≡ text "route_policy_mutation" = ground arith in
      rw same (
        handler-Audits auth here r w allowed _ (delete_route_policy s) (delete-Audits log s logs r))
  serve-IsAudited json get_setup action h auth here r w allowed = absurd (ground arith)
  serve-IsAudited json post_setup action h auth here r w allowed = absurd (ground arith)
  serve-IsAudited json put_settings action h auth here r w allowed =
      let same : action ≡ text "settings_update" = ground arith in
      rw same (
        handler-Audits auth here r w allowed _ (update_settings s json)
          (settings-Audits log s logs json r))
