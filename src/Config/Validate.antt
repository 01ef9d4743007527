-- ===== src/Config/Validate.antt =====
-- backend/pkg/config/validate.go. What is joined by `errors.Join` is a list; `net/url` is a parameter.
use pelican_mc_router.Prelude.{
  Bool, false, not, ◌||◌, ◌&&◌, Option, none, some, List, [], ◌∷◌, ◌++◌, is_empty, ◌==◌,
  if◌then◌else◌,
}
use pelican_mc_router.Prelude.Int.{ℤ, pos, le_int}
use pelican_mc_router.Text.{Text, text, text_eq, Unicode, trim_space, has_prefix}
use pelican_mc_router.Config.{
  ServerConfig, PelicanConfig, RetryConfig, SecretsConfig, DashboardAuthConfig, Configuration,
}

pub record Url : Type 0 where
  pub scheme : Text
  pub host : Text

-- `url.Parse` and `url.ParseRequestURI`
pub record UrlParsers : Type 0 where
  pub parse : Text → Option Url
  pub parse_request_uri : Text → Option Url

pub data ConfigError : Type 0 where
  invalid_server_port invalid_server_read_header_timeout invalid_server_read_timeout
        invalid_server_write_timeout invalid_server_idle_timeout invalid_retry_attempts
        invalid_retry_initial_backoff invalid_retry_max_backoff missing_secrets_directory
        invalid_secrets_directory missing_bootstrap_token_name missing_dashboard_auth_issuer_url
        invalid_dashboard_auth_issuer_url missing_dashboard_auth_audience
        missing_dashboard_auth_role_claim missing_dashboard_auth_required_role
        missing_dashboard_auth_operator_role invalid_dashboard_auth_discovery_timeout
        missing_pelican_url invalid_pelican_url missing_pelican_api_key invalid_pelican_timeout
        invalid_discovery_interval missing_router_domain missing_infrared_proxies_path
        missing_infrared_reload_marker_path unsupported_router_backend missing_mc_router_api_url
        invalid_mc_router_api_url missing_database_path :
      ConfigError

abbrev pub Errors : Type 0
Errors = List ConfigError

abbrev pub refuse : Bool → ConfigError → Errors
refuse b e = if b then e ∷ [] else []

abbrev pub is_positive : ℤ → Bool
is_positive n = le_int (pos 1) n

abbrev pub is_http : Option Url → Bool
is_http none = false
is_http (some u) = (u.scheme == text "http" || u.scheme == text "https") && not (is_empty u.host)

abbrev pub is_https : Option Url → Bool
is_https none = false
is_https (some u) = u.scheme == text "https" && not (is_empty u.host)

abbrev pub is_blank : ⦃u : Unicode⦄ → Text → Bool
is_blank s = is_empty (trim_space s)

module _ ⦃u : Unicode⦄ where
  unfoldable pub validate_server : ServerConfig → Errors
  validate_server c =
      refuse (not (is_positive c.port) || not (le_int c.port (pos 65535))) invalid_server_port
      ++ refuse (not (is_positive c.read_header_timeout)) invalid_server_read_header_timeout
      ++ refuse (not (is_positive c.read_timeout)) invalid_server_read_timeout
      ++ refuse (not (is_positive c.write_timeout)) invalid_server_write_timeout
      ++ refuse (not (is_positive c.idle_timeout)) invalid_server_idle_timeout

  unfoldable pub validate_retry : RetryConfig → Errors
  validate_retry c =
      refuse (not (is_positive c.attempts)) invalid_retry_attempts
      ++ refuse (not (is_positive c.initial_backoff)) invalid_retry_initial_backoff
      ++ refuse (not (le_int c.initial_backoff c.max_backoff)) invalid_retry_max_backoff

  unfoldable pub validate_secrets : SecretsConfig → Errors
  validate_secrets c =
      if is_blank c.directory
      then missing_secrets_directory ∷ []
      else if not (has_prefix (trim_space c.directory) (text "/"))
      then invalid_secrets_directory ∷ []
      else refuse (is_blank c.bootstrap_token_name) missing_bootstrap_token_name

  module _ (urls : UrlParsers) where
    unfoldable pub validate_dashboard_auth : DashboardAuthConfig → Errors
    validate_dashboard_auth c =
        if not c.enabled
        then []
        else (if is_blank c.issuer_url
            then missing_dashboard_auth_issuer_url ∷ []
            else refuse (not (is_https (urls.parse_request_uri (trim_space c.issuer_url))))
                invalid_dashboard_auth_issuer_url)
          ++ refuse (is_blank c.audience) missing_dashboard_auth_audience
          ++ refuse (is_blank c.role_claim) missing_dashboard_auth_role_claim
          ++ refuse (is_blank c.required_role) missing_dashboard_auth_required_role
          ++ refuse (is_blank c.operator_role) missing_dashboard_auth_operator_role
          ++ refuse (not (is_positive c.discovery_timeout)) invalid_dashboard_auth_discovery_timeout

    unfoldable pub validate_mc_router_api_url : Text → Errors
    validate_mc_router_api_url value =
        let raw = trim_space value in
        if is_empty raw
        then missing_mc_router_api_url ∷ []
        else refuse (not (is_http (urls.parse_request_uri raw))) invalid_mc_router_api_url

    unfoldable pub validate_router_infrastructure : Configuration → Errors
    unfolding validate_mc_router_api_url
    validate_router_infrastructure c =
        let backend = trim_space c.router.backend in
        if backend == text "mc-router"
        then validate_mc_router_api_url c.mc_router_api_url
        else if backend == text "infrared"
        then refuse (is_blank c.infrared.proxies_path) missing_infrared_proxies_path
          ++ refuse (is_blank c.infrared.reload_marker_path) missing_infrared_reload_marker_path
        else unsupported_router_backend ∷ []

    unfoldable pub validate_infrastructure : Configuration → Errors
    unfolding validate_router_infrastructure
    validate_infrastructure c =
        validate_server c.server
        ++ refuse (is_blank c.database_path) missing_database_path
        ++ validate_router_infrastructure c
        ++ refuse (not (is_positive c.discovery.interval)) invalid_discovery_interval
        ++ validate_retry c.retry
        ++ validate_dashboard_auth c.dashboard_auth
        ++ validate_secrets c.secrets

    unfoldable pub validate_pelican : PelicanConfig → Errors
    validate_pelican c =
        (if is_blank c.url
          then missing_pelican_url ∷ []
          else refuse (not (is_http (urls.parse_request_uri (trim_space c.url))))
              invalid_pelican_url)
        ++ refuse (is_blank c.api_key) missing_pelican_api_key
        ++ refuse (not (is_positive c.timeout)) invalid_pelican_timeout

    unfoldable pub validate : Configuration → Errors
    validate c =
        validate_infrastructure c
        ++ validate_pelican c.pelican
        ++ refuse (is_blank c.router.domain) missing_router_domain
