-- ===== src/Tests/RouterTests.antt =====
-- Tests and examples for the planning of routes.
use pelican_mc_router.Prelude.{
  ◌≡◌, ◌⊎◌, refl, inl, inr, true, false, ◌&&◌, none, some, [], ◌∷◌, all, ok, err, if◌then◌else◌,
  contains,
}
use pelican_mc_router.Prelude.Dict.{lookup}
use pelican_mc_router.Text.{Text, text, text_eq}
use pelican_mc_router.Router.Label.{is_alphanumeric, normalize_hostname_label}
use pelican_mc_router.Router.Label.Laws.{IsSlug, normalize_hostname_label-IsSlug}
use pelican_mc_router.Router.Hostname.{is_valid_hostname, normalize_hostname, build_hostname}
use pelican_mc_router.Router.Planner.{
  plan, plan_servers, plan_server, plan_with_policy, append_routes, append_route,
}
use pelican_mc_router.Router.Planner.Spec.{
  server_consistent, server_routes, desired_routes, routable,
}
use pelican_mc_router.Router.Planner.Laws.{result, plan_lem}
use pelican_mc_router.Router.Service.{Service}
use pelican_mc_router.Router.Synchronizer.{RouteController, RouteSource, plain}
use pelican_mc_router.Prelude.{ℕ, suc, Result}
use pelican_mc_router.Tests.Data.{ascii, domain_planner, two_servers, alias_table, alias_policy}

label_test : normalize_hostname_label (text " My__Server - 2! ") ≡ text "my-server-2"
unfolding normalize_hostname_label
label_test = refl

valid_test :
    (is_valid_hostname (text "a-b.c1") ≡ true)
    × (is_valid_hostname (text "1.2.3.4") ≡ false)
    × (is_valid_hostname (text "1.2.3.400") ≡ true)
    × (is_valid_hostname (text "-a.b") ≡ false)
    × (is_valid_hostname (text "a..b") ≡ false)
unfolding is_valid_hostname all
valid_test = (refl, refl, refl, refl, refl)

plan_test :
    result (plan domain_planner two_servers alias_table)
    ≡ some (desired_routes domain_planner alias_table two_servers)
unfolding plan plan_servers plan_server plan_with_policy append_routes append_route desired_routes
    server_routes is_valid_hostname build_hostname normalize_hostname lookup contains all text_eq
plan_test = refl

normalize_hostname_label-IsSlug_example :
    (normalize_hostname_label (text "-- A_b!") ≡ [])
    ⊎ IsSlug true (normalize_hostname_label (text "-- A_b!"))
normalize_hostname_label-IsSlug_example = normalize_hostname_label-IsSlug (text "-- A_b!")

dashed-IsSlug : IsSlug true (text "a-1")
unfolding is_alphanumeric
dashed-IsSlug = (inr refl, (inl (refl, refl), (inr refl, refl)))

plan_lem_example : result (plan domain_planner two_servers alias_table) ≡ (
    if all (server_consistent alias_table) two_servers
      && routable (desired_routes domain_planner alias_table two_servers)
    then some (desired_routes domain_planner alias_table two_servers)
    else none)
plan_lem_example = plan_lem domain_planner two_servers alias_table

valid_host : is_valid_hostname (text "a-b.c1") ≡ true
unfolding is_valid_hostname all
valid_host = refl

-- A service whose world counts the calls.
abbrev counted_service : Service ℕ
counted_service = record {
  discover = λ w. (ok two_servers, suc w);
  planner = domain_planner;
  policies = some (λ w. (ok (alias_policy ∷ []), suc w));
}

abbrev live_context : ℕ → Result Text (Unit {0}) × ℕ
live_context w = (ok tt, w)

abbrev failing_source : RouteSource ℕ
failing_source w = (err (text "down"), suc w)

abbrev counting : RouteController ℕ
counting = plain (λ rs w. (none, suc w))

abbrev accepting : RouteController ℕ
accepting = plain (λ rs w. (none, w))
