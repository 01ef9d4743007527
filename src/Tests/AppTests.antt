-- ===== src/Tests/AppTests.antt =====
-- Tests and examples for the configuration: the shipped defaults of backend/configs/config.yaml, which
-- name no domain.
use pelican_mc_router.Prelude.{◌≡◌, refl, false, Option, none, some, [], ◌∷◌, ◌==◌, if◌then◌else◌}
use pelican_mc_router.Prelude.Int.{pos}
use pelican_mc_router.Text.{Text, text, text_eq, trim_space, has_prefix}
use pelican_mc_router.Config.{Configuration}
use pelican_mc_router.Config.Validate.{
  Url, UrlParsers, ConfigError, validate_server, validate_retry, validate_secrets,
  validate_dashboard_auth, validate_mc_router_api_url, validate_router_infrastructure,
  validate_infrastructure, validate_pelican, validate,
}
use pelican_mc_router.App.Selected.{blank_domain-deletes_foreign}
use pelican_mc_router.McRouter.Controller.{with_managed_domain, reconcile_with_result}
use pelican_mc_router.McRouter.Controller.Success.{reconcile-succeeds}
use pelican_mc_router.Tests.McRouterTests.{two_routes_fine, foreign_unwanted}
use pelican_mc_router.Tests.Data.{
  ascii, memory, memory-IsRouteServer, memory-IsResponsive, routed, two_routes, before,
}

abbrev api_url : Text
api_url = text "http://mc-router:8080"

-- One URL is read.
abbrev read_url : Text → Option Url
read_url s =
    if s == api_url
    then some (record { scheme = text "http"; host = text "mc-router:8080" })
    else none

abbrev urls : UrlParsers
urls = record { parse = read_url; parse_request_uri = read_url }

abbrev defaults : Configuration
defaults = record {
  server = record {
    host = text "0.0.0.0";
    port = pos 8080;
    read_header_timeout = pos 5000000000;
    read_timeout = pos 15000000000;
    write_timeout = pos 30000000000;
    idle_timeout = pos 60000000000;
  };
  database_path = text "./data/pelican-mc-router.db";
  pelican = record { url = []; api_key = []; timeout = pos 15000000000 };
  discovery = record { interval = pos 30000000000; wildcard_backend_host = [] };
  router = record { backend = text "mc-router"; domain = [] };
  mc_router_api_url = api_url;
  infrared = record {
    proxies_path = text "/etc/infrared/proxies";
    reload_marker_path = text "/etc/infrared/control/infrared.reload";
  };
  retry = record {
    attempts = pos 3;
    initial_backoff = pos 200000000;
    max_backoff = pos 2000000000;
  };
  secrets = record {
    directory = text "/run/secrets/pelican-mc-router";
    bootstrap_token_name = text "bootstrap-token";
  };
  dashboard_auth = record {
    enabled = false;
    issuer_url = [];
    audience = [];
    role_claim = [];
    required_role = [];
    operator_role = [];
    discovery_timeout = pos 0;
  };
}

validation : Unit {0}
unfolding validate_server validate_retry validate_secrets validate_dashboard_auth
    validate_mc_router_api_url validate_router_infrastructure validate_infrastructure
    validate_pelican validate trim_space has_prefix text_eq
validation = tt

-- The defaults pass, without a domain.
defaults_fine : validate_infrastructure urls defaults ≡ []
unfolding validation
defaults_fine = refl

validate_test :
    validate urls defaults
    ≡ ConfigError.missing_pelican_url ∷ ConfigError.missing_pelican_api_key
      ∷ ConfigError.missing_router_domain ∷ []
unfolding validation
validate_test = refl

blank_domain-deletes_foreign_example :
    routed
      (reconcile_with_result memory
        (with_managed_domain defaults.router.domain)
        two_routes
        before).world
      (text "other.org")
    ≡ none
unfolding trim_space
blank_domain-deletes_foreign_example =
    blank_domain-deletes_foreign memory routed memory-IsRouteServer defaults refl two_routes before
      (text "other.org")
      (reconcile-succeeds memory memory-IsResponsive (with_managed_domain []) two_routes before
        two_routes_fine)
      foreign_unwanted
