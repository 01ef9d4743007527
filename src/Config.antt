-- ===== src/Config.antt =====
-- backend/pkg/config: the configuration. Durations are numbers of nanoseconds, and may be negative.
pub mod Validate
use pelican_mc_router.Prelude.{Bool}
use pelican_mc_router.Prelude.Int.{ℤ}
use pelican_mc_router.Text.{Text}

pub record ServerConfig : Type 0 where
  pub host : Text
  pub port : ℤ
  pub read_header_timeout : ℤ
  pub read_timeout : ℤ
  pub write_timeout : ℤ
  pub idle_timeout : ℤ

pub record PelicanConfig : Type 0 where
  pub url : Text
  pub api_key : Text
  pub timeout : ℤ

pub record DiscoveryConfig : Type 0 where
  pub interval : ℤ
  pub wildcard_backend_host : Text

pub record RouterConfig : Type 0 where
  pub backend : Text
  pub domain : Text

pub record InfraredConfig : Type 0 where
  pub proxies_path : Text
  pub reload_marker_path : Text

pub record RetryConfig : Type 0 where
  pub attempts : ℤ
  pub initial_backoff : ℤ
  pub max_backoff : ℤ

pub record SecretsConfig : Type 0 where
  pub directory : Text
  pub bootstrap_token_name : Text

pub record DashboardAuthConfig : Type 0 where
  pub enabled : Bool
  pub issuer_url : Text
  pub audience : Text
  pub role_claim : Text
  pub required_role : Text
  pub operator_role : Text
  pub discovery_timeout : ℤ

-- `Config`; the database and mc-router parts have one field each, and the logging part is left out.
pub record Configuration : Type 0 where
  pub server : ServerConfig
  pub database_path : Text
  pub pelican : PelicanConfig
  pub discovery : DiscoveryConfig
  pub router : RouterConfig
  pub mc_router_api_url : Text
  pub infrared : InfraredConfig
  pub retry : RetryConfig
  pub secrets : SecretsConfig
  pub dashboard_auth : DashboardAuthConfig
