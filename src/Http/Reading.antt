-- ===== src/Http/Reading.antt =====
-- The handlers of backend/internal/http/server.go that tell the state of the router.
pub mod Tracked
use pelican_mc_router.Prelude.{
  ℕ, Bool, true, false, Option, none, some, List, length, if◌then◌else◌, Result, ok, err,
}
use pelican_mc_router.Text.{Text, text}
use pelican_mc_router.Runtime.Status.{Status}
use pelican_mc_router.Router.{Route}
use pelican_mc_router.Http.{
  Error, Payload, plain_text, readiness_body, status_body, servers_body, routes_body, preview_body,
  Reply, write_json, write_json_error, Request,
}
use pelican_mc_router.Http.Readiness.{Readiness, readiness_for}
use pelican_mc_router.Http.Server.{Server, Handler}

unfoldable pub health_handler : {W : Type 0} → Handler W
health_handler r w = (write_json 200 (plain_text (text "OK")), w)

module _ {W : Type 0} where
  -- A service of the runtime is called, and its answer or its error is written.
  unfoldable pub answer :
      {A : Type 0} → Option (W → Result Error A × W) → (A → Payload) → Reply → W → Reply × W
  answer service body failure w = elim service [
    | none ↦ (write_json_error 503 (text "setup has not been completed"), w)
    | some call ↦
        let (result, w1) = call w in
        elim result [ err e ↦ (failure, w1) | ok a ↦ (write_json 200 (body a), w1) ]
  ]

module _ {W : Type 0} (s : Server W) where
  unfoldable pub ready : Handler W
  ready r w =
      let (complete, w1) = s.setup.is_setup_complete w in
      elim complete [
        | err e ↦ (write_json 503 (readiness_body false (text "status_unavailable")), w1)
        | ok completed ↦
            let result : Readiness = readiness_for completed (s.reconciliation_status w1) in
            (
              write_json (if result.ready then 200 else 503)
                  (readiness_body result.ready result.reason),
              w1,
            )
      ]

  unfoldable pub status : Handler W
  status r w =
      let (complete, w1) = s.setup.is_setup_complete w in
      elim complete [
        | err e ↦ (write_json_error 503 (text "application status unavailable"), w1)
        | ok completed ↦
            let now : Status = s.reconciliation_status w1 in
            let result : Readiness = readiness_for completed now in
            (
              write_json 200 (
                  status_body (record {
                    build = s.build;
                    setup_completed = completed;
                    ready = result.ready;
                    readiness_reason = result.reason;
                    reconciliation = now;
                  })),
              w1,
            )
      ]

  unfoldable pub list_servers : Handler W
  unfolding answer
  list_servers r w =
      answer (s.discovery w) servers_body
        (write_json_error 500 (text "failed to discover Minecraft servers")) w

  unfoldable pub list_routes : Handler W
  unfolding answer
  list_routes r w =
      answer (s.routing w) routes_body
        (write_json_error 500 (text "failed to generate Minecraft routes")) w

  unfoldable pub preview_routes : Handler W
  unfolding answer
  preview_routes r w =
      answer (s.routing w) (λ (routes : List Route). preview_body (length routes) routes)
        (write_json_error 503 (text "route preview unavailable")) w
