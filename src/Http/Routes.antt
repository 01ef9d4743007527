-- ===== src/Http/Routes.antt =====
-- `Router` of backend/internal/http/server.go: the routes, and the handler of each. The matching of a
-- request's method and path to a route is chi's.
pub mod Keeps
pub mod Guarded
pub mod Events
pub mod Mutations
pub mod Audited
use pelican_mc_router.Prelude.{ℕ, Bool, true, false, Option, none, some}
use pelican_mc_router.Text.{text, Unicode}
use pelican_mc_router.Http.{Json, redirect, Reply, write_json, Request}
use pelican_mc_router.Http.Server.{Server, Handler}
use pelican_mc_router.Http.Authorize.{management_authorize, bootstrap_only}
use pelican_mc_router.Http.Policies.{
  list_route_policies, create_route_policy, update_route_policy, delete_route_policy,
}
use pelican_mc_router.Http.Histories.{list_action_history, list_operational_history}
use pelican_mc_router.Http.Settings.{get_setup_status, configure_setup, update_settings}
use pelican_mc_router.Http.Dashboard.{dashboard_page, reconcile_dashboard}
use pelican_mc_router.Http.Reading.{
  health_handler, ready, status, list_servers, list_routes, preview_routes,
}

-- In the order of their registration.
pub data Endpoint : Type 0 where
  get_root get_health get_metrics get_ready get_status get_dashboard post_reconcile get_servers
        get_routes get_preview get_policies get_operations get_actions post_policies put_policy
        delete_policy get_setup post_setup put_settings :
      Endpoint

module _ ⦃u : Unicode⦄ {W : Type 0} (s : Server W) (json : Json) where
  abbrev viewer : Handler W → Handler W
  viewer next = management_authorize s next false

  abbrev operator : Handler W → Handler W
  operator next = management_authorize s next true

  unfoldable pub serve : Endpoint → Handler W
  serve get_root r w = viewer (λ r w. (write_json 307 (redirect (text "/dashboard")), w)) r w
  serve get_health r w = health_handler r w
  serve get_metrics r w = s.metrics w
  serve get_ready r w = ready s r w
  serve get_status r w = viewer (status s) r w
  serve get_dashboard r w = viewer (dashboard_page s) r w
  serve post_reconcile r w = operator (reconcile_dashboard s) r w
  serve get_servers r w = viewer (list_servers s) r w
  serve get_routes r w = viewer (list_routes s) r w
  serve get_preview r w = viewer (preview_routes s) r w
  serve get_policies r w = viewer (list_route_policies s) r w
  serve get_operations r w = viewer (list_operational_history s) r w
  serve get_actions r w = viewer (list_action_history s) r w
  serve post_policies r w = operator (create_route_policy s json) r w
  serve put_policy r w = operator (update_route_policy s json) r w
  serve delete_policy r w = operator (delete_route_policy s) r w
  serve get_setup r w = bootstrap_only s (get_setup_status s) r w
  serve post_setup r w = bootstrap_only s (configure_setup s json) r w
  serve put_settings r w = operator (update_settings s json) r w
