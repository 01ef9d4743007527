-- ===== src/Http/Readiness.antt =====
-- The readiness of backend/internal/http/server.go, and the one of the dashboard's read model
-- backend/internal/dashboard/read_model.go.
use pelican_mc_router.Prelude.{
  ◌≡◌, refl, Bool, true, false, not, ◌&&◌, Option, none, some, if◌then◌else◌, Result, ok, err,
}
use pelican_mc_router.Text.{Text, text}
use pelican_mc_router.Runtime.Status.{Status, Outcome, not_configured, success, failure}
use pelican_mc_router.Http.{Error, BuildInfo, StatusPage}

pub record Readiness : Type 0 where
  pub ready : Bool
  pub reason : Text

abbrev pub not_ready : Text → Readiness
not_ready reason = record { ready = false; reason = reason }

unfoldable pub readiness_for : Bool → Status → Readiness
readiness_for completed status =
    if not completed then not_ready (text "setup_incomplete") else elim status.last_outcome [
      | none ↦ not_ready (text "reconciliation_pending")
      | some not_configured ↦ not_ready (text "reconciliation_pending")
      | some failure ↦ not_ready (text "reconciliation_failed")
      | some success ↦ record { ready = true; reason = text "ready" }
    ]

-- `*outcome == success` of a pointer that may be nil
abbrev pub is_success : Option Outcome → Bool
is_success none = false
is_success (some not_configured) = false
is_success (some success) = true
is_success (some failure) = false

-- `readyFor` of the dashboard
unfoldable pub ready_for : Bool → Status → Bool
ready_for completed status = completed && is_success status.last_outcome

unfoldable pub readiness_reason_for : Bool → Status → Text
readiness_reason_for completed status =
    if not completed then text "setup_incomplete" else elim status.last_outcome [
      | none ↦ text "reconciliation_pending"
      | some not_configured ↦ text "reconciliation_pending"
      | some failure ↦ text "reconciliation_failed"
      | some success ↦ text "ready"
    ]

-- `dashboard.Service`
pub record ReadModel (W : Type 0) : Type 0 where
  pub is_setup_complete : W → Result Error Bool × W
  pub reconciliation : W → Status
  pub build : BuildInfo

-- `Snapshot` of the dashboard's service
unfoldable pub snapshot : {W : Type 0} → ReadModel W → W → Result Error StatusPage × W
snapshot s w =
    let (found, w1) = s.is_setup_complete w in
    elim found [
      | err e ↦ (err e, w1)
      | ok completed ↦ (
        ok (record {
          build = s.build;
          setup_completed = completed;
          ready = ready_for completed (s.reconciliation w1);
          readiness_reason = readiness_reason_for completed (s.reconciliation w1);
          reconciliation = s.reconciliation w1;
        }),
        w1,
      )
    ]

-- The readiness that the API and the dashboard derive, each by its own routine, is the same for any
-- status.
pub readiness-agrees :
    (completed : Bool) (status : Status)
    → readiness_for completed status ≡ record {
      ready = ready_for completed status;
      reason = readiness_reason_for completed status;
    }
unfolding readiness_for ready_for readiness_reason_for
readiness-agrees false status = refl
readiness-agrees true status =
    elim status.last_outcome
      as (λ o. readiness_for true (record status { last_outcome = o }) ≡ record {
        ready = ready_for true (record status { last_outcome = o });
        reason = readiness_reason_for true (record status { last_outcome = o });
      }) [ none ↦ refl | some not_configured ↦ refl | some failure ↦ refl | some success ↦ refl ]
