-- ===== src/Http/Authorize.antt =====
-- The wrappers `managementViewer`, `managementOperator` and `bootstrapOnly` of
-- backend/internal/http/server.go, and `dashboardAuthorizationError` of dashboard.go.
use pelican_mc_router.Prelude.{Bool, true, false, none, some, if◌then◌else◌, ok, err}
use pelican_mc_router.Text.{text}
use pelican_mc_router.Http.{Error, access_forbidden, is_error, Reply, write_json_error}
use pelican_mc_router.Http.Server.{Server, Handler, record_action}

unfoldable pub dashboard_authorization_error : Error → Reply
dashboard_authorization_error e =
    if is_error e access_forbidden
    then write_json_error 403 (text "dashboard access denied")
    else write_json_error 401 (text "dashboard authentication required")

module _ {W : Type 0} (s : Server W) where
  unfoldable pub management_authorize : Handler W → Bool → Handler W
  management_authorize next operator r w = elim s.management_auth [
    | none ↦ (write_json_error 503 (text "management authentication unavailable"), w)
    | some auth ↦
        let (allowed, w1) = if operator then auth.authorize_operator r w else auth.authorize r w in
        elim allowed [ err e ↦ (dashboard_authorization_error e, w1) | ok _ ↦ next r w1 ]
  ]

  unfoldable pub bootstrap_only : Handler W → Handler W
  bootstrap_only next r w =
      let (complete, w1) = s.setup.is_setup_complete w in
      elim complete [
        | err e ↦ (
          write_json_error 503 (text "setup status unavailable"),
          record_action s (text "bootstrap_authorization") (text "failure") w1,
        )
        | ok true ↦ (write_json_error 404 (text "setup is unavailable"), w1)
        | ok false ↦ elim s.bootstrap_auth [
          | none ↦ (
            write_json_error 503 (text "bootstrap authentication unavailable"),
            record_action s (text "bootstrap_authorization") (text "failure") w1,
          )
          | some authorize ↦
              let (allowed, w2) = authorize r w1 in
              elim allowed [
                | err e ↦ (
                  write_json_error 401 (text "bootstrap authentication required"),
                  record_action s (text "bootstrap_authorization") (text "denied") w2,
                )
                | ok _ ↦
                    next r (record_action s (text "bootstrap_authorization") (text "success") w2)
              ]
        ]
      ]
