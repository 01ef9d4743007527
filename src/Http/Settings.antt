-- ===== src/Http/Settings.antt =====
-- The setup and settings handlers of backend/internal/http/server.go.
use pelican_mc_router.Prelude.{not, none, some, [], if◌then◌else◌, Result, ok, err}
use pelican_mc_router.Text.{Text, text, Unicode, trim_space}
use pelican_mc_router.Runtime.Build.{Settings}
use pelican_mc_router.Secrets.{valid_name}
use pelican_mc_router.Http.{
  Error, already_configured, missing_router_domain, setup_not_active, is_error, no_body, setup_body,
  Reply, write_json, write_json_error, SetupRequest, Json,
}
use pelican_mc_router.Http.Server.{
  Server, Handler, LimitedAction, limited_setup, limited_settings, outcome_for_error, decode_json,
  record_action, allow_action,
}

-- `writeSetupError`, and the reply to any other error.
unfoldable pub setup_error_reply : Text → Error → Reply
setup_error_reply otherwise e =
    if is_error e already_configured
    then write_json_error 409 (text "setup has already been completed")
    else if is_error e missing_router_domain
    then write_json_error 400 (text "router domain is required")
    else if is_error e setup_not_active
    then write_json_error 409 (text "setup has not been completed")
    else write_json_error 500 otherwise

abbrev pub requested_settings : ⦃u : Unicode⦄ → SetupRequest → Settings
requested_settings request = record {
  pelican_url = trim_space request.pelican_url;
  pelican_api_key = [];
  pelican_secret_name = trim_space request.pelican_secret_name;
  router_domain = trim_space request.router_domain;
}

module _ ⦃u : Unicode⦄ {W : Type 0} (s : Server W) where
  unfoldable pub get_setup_status : Handler W
  get_setup_status r w =
      let (complete, w1) = s.setup.is_setup_complete w in
      elim complete [
        | err e ↦ (write_json_error 500 (text "failed to get setup status"), w1)
        | ok completed ↦ (write_json 200 (setup_body completed), w1)
      ]

  -- What `configureSetup` and `updateSettings` do from the decoding on: the action that is recorded,
  -- the message of an unknown error, and the call of the setup service.
  unfoldable pub apply_settings :
      Text → Text → (Settings → W → Result Error (Unit {0}) × W) → Json → Handler W
  apply_settings action failure call json r w = elim (decode_json json.setup_request r.body) [
    | none ↦ (
      write_json_error 400 (text "invalid request body"),
      record_action s action (text "failure") w,
    )
    | some request ↦
        if not (valid_name (trim_space request.pelican_secret_name))
        then (
          write_json_error 400 (text "invalid Pelican credential reference"),
          record_action s action (text "failure") w,
        )
        else let (done, w1) = call (requested_settings request) w in
          elim done [
            | err e ↦ (setup_error_reply failure e, record_action s action (outcome_for_error e) w1)
            | ok _ ↦ (write_json 204 no_body, record_action s action (text "success") w1)
          ]
  ]

  abbrev limited : LimitedAction → Handler W → Handler W
  limited action next r w =
      let (refused, w1) = allow_action s action w in
      elim refused [ some reply ↦ (reply, w1) | none ↦ next r w1 ]

  unfoldable pub configure_setup : Json → Handler W
  unfolding apply_settings
  configure_setup json r w =
      limited limited_setup
        (apply_settings (text "setup") (text "failed to configure setup") s.setup.setup json) r w

  unfoldable pub update_settings : Json → Handler W
  unfolding apply_settings
  update_settings json r w =
      limited limited_settings
        (apply_settings (text "settings_update") (text "failed to update settings") s.setup.update
          json)
        r w
