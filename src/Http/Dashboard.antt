-- ===== src/Http/Dashboard.antt =====
-- The handlers of backend/internal/http/dashboard.go; the page is the values that its template shows.
use pelican_mc_router.Prelude.{
  Bool, true, false, not, ◌||◌, ◌&&◌, Option, none, some, [], ◌∷◌, ◌++◌, ◌==◌, if◌then◌else◌,
  Result, ok, err,
}
use pelican_mc_router.Prelude.Int.{pos}
use pelican_mc_router.Text.{Text, text, text_eq}
use pelican_mc_router.Http.{
  Error, canceled, deadline_exceeded, is_error, StatusPage, plain_text, dashboard_body,
  reconciliation_body, Reply, write_json, write_json_error,
}
use pelican_mc_router.Http.Server.{
  Server, Authorizer, Handler, limited_reconcile, record_action, allow_action,
}
use pelican_mc_router.Http.Authorize.{dashboard_authorization_error}

module _ {W : Type 0} (s : Server W) where
  abbrev present : {A : Type 0} → Option A → Bool
  present none = false
  present (some a) = true

  abbrev unavailable : Reply
  unavailable = write_json_error 503 (text "dashboard status unavailable")

  -- `dashboardPage` once the snapshot is taken
  unfoldable pub page_with : StatusPage → W → Reply × W
  page_with page w =
      let enabled : Bool = present s.dashboard_refresh && present s.dashboard_auth in
      elim s.operational_history [
        | none ↦ (write_json 200 (dashboard_body page enabled []), w)
        | some list ↦
            let (events, w1) = list (pos 10) w in
            elim events [
              | err e ↦ (unavailable, w1)
              | ok rows ↦ (write_json 200 (dashboard_body page enabled rows), w1)
            ]
      ]

  unfoldable pub page_snapshot : (W → Result Error StatusPage × W) → W → Reply × W
  page_snapshot snapshot w =
      let (page, w1) = snapshot w in elim page [ err e ↦ (unavailable, w1) | ok p ↦ page_with p w1 ]

  unfoldable pub dashboard_page : Handler W
  dashboard_page r w = elim s.dashboard [
    | none ↦ (write_json 404 (plain_text (text "404 page not found" ++ 10 ∷ [])), w)
    | some snapshot ↦ elim s.dashboard_auth [
      | none ↦ page_snapshot snapshot w
      | some auth ↦
          let (allowed, w1) = auth.authorize r w in
          elim allowed [
            | err e ↦ (dashboard_authorization_error e, w1)
            | ok _ ↦ page_snapshot snapshot w1
          ]
    ]
  ]

  -- `reconcileDashboard` from the call of the refresher on
  unfoldable pub refresh_with : (W → Result Error (Unit {0}) × W) → W → Reply × W
  refresh_with refresh w =
      let (refreshed, w1) = refresh w in
      let recorded =
        λ (outcome : Text). record_action s (text "manual_reconciliation") outcome w1 in
      elim refreshed [
        | err e ↦
            if is_error e canceled || is_error e deadline_exceeded
            then (write_json_error 408 (text "reconciliation canceled"), recorded (text "canceled"))
            else (
              write_json_error 503 (text "reconciliation unavailable"),
              recorded (text "failure"),
            )
        | ok _ ↦
            let w2 : W = recorded (text "success") in
            (write_json 200 (reconciliation_body (s.reconciliation_status w2)), w2)
      ]

  unfoldable pub reconcile_with : (W → Result Error (Unit {0}) × W) → Authorizer W → Handler W
  reconcile_with refresh auth r w =
      let (refused, w1) = allow_action s limited_reconcile w in
      elim refused [
        | some reply ↦ (reply, w1)
        | none ↦
            if not (r.csrf == text "1")
            then (write_json_error 403 (text "dashboard access denied"), w1)
            else let (allowed, w2) = auth.authorize_operator r w1 in
              elim allowed [
                | err e ↦ (dashboard_authorization_error e, w2)
                | ok _ ↦ refresh_with refresh w2
              ]
      ]

  unfoldable pub reconcile_dashboard : Handler W
  reconcile_dashboard r w = elim s.dashboard_refresh [
    | none ↦ (write_json_error 404 (text "manual reconciliation not found"), w)
    | some refresh ↦ elim s.dashboard_auth [
      | none ↦ (write_json_error 404 (text "manual reconciliation not found"), w)
      | some auth ↦ reconcile_with refresh auth r w
    ]
  ]
