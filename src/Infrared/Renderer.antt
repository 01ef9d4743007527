-- ===== src/Infrared/Renderer.antt =====
-- `Render` of backend/internal/router/infrared/renderer.go, and `proxyFilename` of controller.go.
-- `yaml.Marshal` is third-party code: the parameter `marshal`.
pub mod Laws
use pelican_mc_router.Prelude.{
  ℕ, Bool, true, false, not, ◌&&◌, ◌||◌, List, [], ◌∷◌, ◌++◌, is_empty, any, eqb, ◌==◌,
  if◌then◌else◌, Result, ok, err,
}
use pelican_mc_router.Prelude.Int.{pos, le_int}
use pelican_mc_router.Text.{Text, text, text_eq, Unicode, trim_space}
use pelican_mc_router.Text.Decimal.{itoa, join_host_port}
use pelican_mc_router.Router.{Route}

pub record ProxyConfig : Type 0 where
  pub domains : List Text
  pub addresses : List Text

pub data RenderError : Type 0 where
  empty_hostname empty_backend_host invalid_backend_port : RenderError
  encode_config : Text → RenderError

pub data FilenameError : Type 0 where
  empty_server_id invalid_server_id : FilenameError

abbrev pub managed_proxy_prefix : Text
managed_proxy_prefix = text "pelican-mc-router-"

-- A character that `proxyFilename` refuses: '/', '\' or NUL.
unfoldable pub is_path_char : ℕ → Bool
is_path_char c = eqb c b'/' || (eqb c 92 || eqb c 0)

module _ ⦃u : Unicode⦄ where
  unfoldable pub render : (ProxyConfig → Result Text Text) → Route → Result RenderError Text
  render marshal route =
      let hostname = trim_space route.hostname in
      let host = trim_space route.backend.host in
      if is_empty hostname
      then err empty_hostname
      else if is_empty host
      then err empty_backend_host
      else if not (le_int (pos 1) route.backend.port) || not (le_int route.backend.port (pos 65535))
      then err invalid_backend_port
      else elim (marshal (record {
        domains = hostname ∷ [];
        addresses = join_host_port host (itoa route.backend.port) ∷ [];
      })) [ err e ↦ err (encode_config e) | ok encoded ↦ ok encoded ]

  unfoldable pub proxy_filename : Text → Result FilenameError Text
  proxy_filename server_id =
      let id = trim_space server_id in
      if is_empty id
      then err empty_server_id
      else if id == text "." || (id == text ".." || any is_path_char id)
      then err invalid_server_id
      else ok (managed_proxy_prefix ++ id ++ text ".yml")
