-- ===== src/Tests/McRouterTests.antt =====
-- Tests and examples for reconciliation with mc-router.
use pelican_mc_router.Prelude.{
  ◌≡◌, ◌≢◌, refl, true, false, none, List, [], ◌∷◌, all, any, contains, distinct, select, ok,
}
use pelican_mc_router.Prelude.Dict.{lookup, insert, erase, has, keys}
use pelican_mc_router.Text.{text, text_eq}
use pelican_mc_router.Text.Decimal.{itoa}
use pelican_mc_router.Text.Sort.{sort_strings}
use pelican_mc_router.Router.{Route}
use pelican_mc_router.Router.Hostname
use pelican_mc_router.Router.Planner.Spec.{desired_routes, server_routes}
use pelican_mc_router.Router.Planner.{
  plan, plan_servers, plan_server, plan_with_policy, append_routes, append_route,
}
use pelican_mc_router.McRouter.Controller.{
  rounds, create_round, delete_round, prepare_route, prepare_routes, is_valid_hostname, owns,
  stale_hostnames, apply_changes, reconcile_with_result, initial_result,
}
use pelican_mc_router.McRouter.Controller.Prepare.{route_table, route_fine}
use pelican_mc_router.McRouter.Controller.Convergence.{
  settled, reconcile-settles, reconcile-keeps_foreign,
}
use pelican_mc_router.McRouter.Controller.Idle.{reconcile-again}
use pelican_mc_router.McRouter.Controller.Success.{
  routes_fine, reconcile-succeeds, reconcile-refuses,
}
use pelican_mc_router.McRouter.Planned.{port_fits, plan-routes_fine}
use pelican_mc_router.Tests.Data.{
  ascii, memory, routed, memory-IsRouteServer, memory-IsResponsive, two_routes, route, managed,
  before, domain_planner, two_servers, alias_table,
}

-- Opens what a reconciliation runs.
reconciliation : Unit {0}
unfolding reconcile_with_result prepare_routes prepare_route apply_changes rounds create_round
    delete_round stale_hostnames owns is_valid_hostname lookup insert erase has keys contains all
    any select sort_strings text_eq route_table itoa
reconciliation = tt

reconcile_test :
    (reconcile_with_result memory managed two_routes before).result
    ≡ record { desired = 2; created = 1; updated = 1; deleted = 1; changed = true }
unfolding reconciliation
reconcile_test = refl

pub two_routes_fine : routes_fine two_routes ≡ true
unfolding reconciliation routes_fine route_fine distinct
two_routes_fine = refl

two_routes_succeed : (reconcile_with_result memory managed two_routes before).error ≡ none
two_routes_succeed =
    reconcile-succeeds memory memory-IsResponsive managed two_routes before two_routes_fine

reconcile-succeeds_example : (reconcile_with_result memory managed two_routes before).error ≡ none
reconcile-succeeds_example =
    reconcile-succeeds memory memory-IsResponsive managed two_routes before two_routes_fine

reconcile-settles_example :
    routed
      (reconcile_with_result memory managed two_routes before).world
      (text "old.mc.example.com")
    ≡ settled
        (owns managed (text "old.mc.example.com"))
        (lookup (text "old.mc.example.com") (route_table two_routes))
        (routed before (text "old.mc.example.com"))
reconcile-settles_example =
    reconcile-settles memory routed memory-IsRouteServer managed two_routes before
      two_routes_succeed (text "old.mc.example.com")

foreign_host : owns managed (text "other.org") ≡ false
unfolding reconciliation
foreign_host = refl

pub foreign_unwanted : lookup (text "other.org") (route_table two_routes) ≡ none
unfolding reconciliation
foreign_unwanted = refl

reconcile-keeps_foreign_example :
    routed (reconcile_with_result memory managed two_routes before).world (text "other.org")
    ≡ routed before (text "other.org")
reconcile-keeps_foreign_example =
    reconcile-keeps_foreign memory routed memory-IsRouteServer managed two_routes before
      (text "other.org") foreign_host foreign_unwanted

reconcile-again_example :
    (reconcile_with_result memory managed two_routes
      (reconcile_with_result memory managed two_routes before).world).result
    ≡ initial_result two_routes
reconcile-again_example =
    reconcile-again memory routed memory-IsRouteServer managed two_routes before two_routes_succeed

bad_port : routes_fine (route "a.mc.example.com" 70000 ∷ []) ≡ false
unfolding reconciliation routes_fine route_fine distinct
bad_port = refl

reconcile-refuses_example :
    ((reconcile_with_result memory managed (route "a.mc.example.com" 70000 ∷ []) before).error
      ≢ none)
    × ((reconcile_with_result memory managed (route "a.mc.example.com" 70000 ∷ []) before).world
        ≡ before)
    × ((reconcile_with_result memory managed (route "a.mc.example.com" 70000 ∷ []) before).result
        ≡ initial_result (route "a.mc.example.com" 70000 ∷ []))
reconcile-refuses_example =
    reconcile-refuses memory (λ w. refl) managed (route "a.mc.example.com" 70000 ∷ []) before
      bad_port

abbrev pub planned_routes : List Route
planned_routes = desired_routes domain_planner alias_table two_servers

-- Opens what planning runs.
planning : Unit {0}
unfolding plan plan_servers plan_server plan_with_policy append_routes append_route desired_routes
    server_routes Hostname.is_valid_hostname Hostname.build_hostname Hostname.normalize_hostname
    lookup contains all text_eq
planning = tt

pub planned : plan domain_planner two_servers alias_table ≡ ok planned_routes
unfolding planning
planned = refl

planned_ports : all port_fits planned_routes ≡ true
unfolding planning
planned_ports = refl

plan-routes_fine_example : routes_fine planned_routes ≡ true
plan-routes_fine_example =
    plan-routes_fine domain_planner two_servers alias_table planned planned_ports
