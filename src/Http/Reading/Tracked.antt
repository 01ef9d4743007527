-- ===== src/Http/Reading/Tracked.antt =====
-- About `ready` of backend/internal/http/server.go over the tracker of backend/internal/runtime.
use pelican_mc_router.Prelude.{
  ◌≡◌, ◌↔◌, ◌≢◌, ◌&&◌, refl, ap, ◌∙◌, inl, inr, Bool, true, Option, none, some, List, [], ◌∷◌,
  arith, ok, Result-cases,
}
use pelican_mc_router.Runtime.Status.{
  Status, Outcome, not_configured, success, failure, new_status, start, complete, Event, started,
  ended, track_all,
}
use pelican_mc_router.Http.{Request}
use pelican_mc_router.Http.Readiness.{
  Readiness, readiness_for, ready_for, is_success, readiness-agrees,
}
use pelican_mc_router.Http.Server.{Server}
use pelican_mc_router.Http.Reading.{ready}

-- The outcome of the last reconciliation that ended, or `before`.
unfoldable pub last_ended : Option Outcome → List Event → Option Outcome
last_ended before [] = before
last_ended before (started now ∷ events) = last_ended before events
last_ended before (ended outcome summary result now ∷ events) = last_ended (some outcome) events

track_all-last_outcome :
    (s : Status) (events : List Event)
    → (track_all s events).last_outcome ≡ last_ended s.last_outcome events
unfolding track_all last_ended start complete
track_all-last_outcome s [] = refl
track_all-last_outcome s (started now ∷ events) = track_all-last_outcome (start now s) events
track_all-last_outcome s (ended not_configured summary result now ∷ events) =
    track_all-last_outcome (complete not_configured summary result now s) events
track_all-last_outcome s (ended success summary result now ∷ events) =
    track_all-last_outcome (complete success summary result now s) events
track_all-last_outcome s (ended failure summary result now ∷ events) =
    track_all-last_outcome (complete failure summary result now s) events

is_success-eq : (o : Option Outcome) → is_success o ≡ true → o ≡ some success
is_success-eq none h = absurd (ground arith)
is_success-eq (some not_configured) h = absurd (ground arith)
is_success-eq (some success) h = refl
is_success-eq (some failure) h = absurd (ground arith)

is_success-ready :
    (completed : Bool) (status : Status)
    → (readiness_for completed status).ready ≡ (completed && is_success status.last_outcome)
unfolding ready_for
is_success-ready completed status =
    ap (λ (r : Readiness). r.ready) (readiness-agrees completed status)

module _ {W : Type 0} (s : Server W) where
  -- The reply of `/ready` has status 200 exactly when the setup is complete and the last reconciliation
  -- that ended was a success, if the status is the one that the tracker has after `events`. Otherwise
  -- it has status 503.
  pub ready-tracks :
      (r : Request) (w : W) (events : List Event)
      → s.reconciliation_status (s.setup.is_setup_complete w).1 ≡ track_all new_status events
      → (((ready s r w).0.status ≡ 200)
          ↔ (((s.setup.is_setup_complete w).0 ≡ ok true) × (last_ended none events ≡ some success)))
        × (((ready s r w).0.status ≢ 200) → (ready s r w).0.status ≡ 503)
  unfolding ready
  ready-tracks r w events h =
      let w1 : W = (s.setup.is_setup_complete w).1 in
      let now : Status = s.reconciliation_status w1 in
      let latest : now.last_outcome ≡ last_ended none events =
        ap (λ (t : Status). t.last_outcome) h ∙ track_all-last_outcome new_status events in
      elim (Result-cases (s.setup.is_setup_complete w).0) [
        | inr (e, bad) ↦ ((ground arith, ground arith), ground arith)
        | inl (completed, good) ↦
            let same : (readiness_for completed now).ready
                ≡ (completed && is_success (last_ended none events)) =
              is_success-ready completed now
              ∙ ap (λ (o : Option Outcome). completed && is_success o) latest in
            let only : is_success (last_ended none events) ≡ true
                → last_ended none events ≡ some success =
              is_success-eq (last_ended none events) in
            ((ground arith, ground arith), ground arith)
      ]
