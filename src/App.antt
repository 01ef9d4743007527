-- ===== src/App.antt =====
-- backend/internal/app/router_controller.go: the controller of the configured router, with the
-- constructors that it calls.
pub mod Selected
use pelican_mc_router.Prelude.{
  Bool, true, false, not, Option, none, some, is_empty, if◌then◌else◌, ◌||◌, ◌==◌, Result, ok, err,
}
use pelican_mc_router.Text.{Text, text, text_eq, Unicode, trim_space}
use pelican_mc_router.Config.{RetryConfig, Configuration}
use pelican_mc_router.Config.Validate.{Url, UrlParsers}
use pelican_mc_router.Router.Service.{Engine, mc_router, infrared, parse_engine}
use pelican_mc_router.McRouter.Controller.{Controller, with_managed_domain}
use pelican_mc_router.Infrared.Controller.{controller_directory}

pub data ClientError : Type 0 where
  base_url_required base_url_unparsed base_url_scheme base_url_host : ClientError

pub data AppError : Type 0 where
  unsupported_engine : Text → AppError
  create_client : ClientError → AppError
  empty_directory empty_reload_marker_path : AppError

-- `mcrouter.NewClient`
pub record Client : Type 0 where
  pub base_url : Url
  pub retry : RetryConfig

pub data RouteController : Type 0 where
  mc_router_controller : Client → Controller → RouteController
  infrared_controller : Text → Text → RouteController

module _ ⦃u : Unicode⦄ where
  -- `NewMarkerReloader`; `filepath.Clean` keeps the file that a path names.
  unfoldable pub marker_path : Text → Option Text
  marker_path path =
      let trimmed = trim_space path in if is_empty trimmed then none else some trimmed

  module _ (urls : UrlParsers) where
    unfoldable pub new_client : Text → RetryConfig → Result ClientError Client
    new_client value retry =
        let raw = trim_space value in
        if is_empty raw then err base_url_required else elim (urls.parse raw) [
          | none ↦ err base_url_unparsed
          | some url ↦
              if not (url.scheme == text "http" || url.scheme == text "https")
              then err base_url_scheme
              else if is_empty url.host
              then err base_url_host
              else ok (record { base_url = url; retry = retry })
        ]

    unfoldable pub new_mc_router_controller : Configuration → Result AppError RouteController
    new_mc_router_controller c = elim (new_client c.mc_router_api_url c.retry) [
      | err e ↦ err (create_client e)
      | ok client ↦ ok (mc_router_controller client (with_managed_domain c.router.domain))
    ]

    unfoldable pub new_infrared_controller : Configuration → Result AppError RouteController
    new_infrared_controller c = elim (controller_directory c.infrared.proxies_path) [
      | none ↦ err empty_directory
      | some directory ↦ elim (marker_path c.infrared.reload_marker_path) [
        | none ↦ err empty_reload_marker_path
        | some path ↦ ok (infrared_controller directory path)
      ]
    ]

    unfoldable pub new_route_controller : Configuration → Result AppError RouteController
    new_route_controller c = elim (parse_engine c.router.backend) [
      | err value ↦ err (unsupported_engine value)
      | ok mc_router ↦ new_mc_router_controller c
      | ok infrared ↦ new_infrared_controller c
    ]
