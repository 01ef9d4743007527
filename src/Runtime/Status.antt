-- ===== src/Runtime/Status.antt =====
-- `ReconciliationTracker` of backend/internal/runtime/reconciliation_status.go. A time is a number
-- of nanoseconds; the tracker's mutex makes each method one step, and a snapshot is a copy.
pub mod Laws
use pelican_mc_router.Prelude.{
  ℕ, suc, ◌+◌, ◌-◌, ◌/◌, Bool, true, false, Option, none, some, List, [], ◌∷◌,
}
use pelican_mc_router.Text.{Text, text}
use pelican_mc_router.Router.Result.{ReconciliationResult, no_result}

pub data Outcome : Type 0 where
  not_configured success failure : Outcome

pub record Status : Type 0 where
  pub in_progress : Bool
  pub last_outcome : Option Outcome
  pub last_started_at : Option ℕ
  pub last_completed_at : Option ℕ
  pub last_success_at : Option ℕ
  pub last_duration_ms : ℕ
  pub consecutive_failures : ℕ
  pub last_error : Option Text
  pub route_changes : ReconciliationResult

abbrev pub new_status : Status
new_status = record {
  in_progress = false;
  last_outcome = none;
  last_started_at = none;
  last_completed_at = none;
  last_success_at = none;
  last_duration_ms = 0;
  consecutive_failures = 0;
  last_error = none;
  route_changes = no_result;
}

unfoldable pub start : ℕ → Status → Status
start now s = record s { in_progress = true; last_started_at = some now }

-- Milliseconds from the start; 0 for a clock that went back, as `-` stops at 0.
abbrev pub duration_ms : Option ℕ → ℕ → ℕ → ℕ
duration_ms none now before = before
duration_ms (some started) now before = (now - started) / 1000000

-- The fields that every completion sets.
abbrev pub completed : Outcome → ReconciliationResult → ℕ → Status → Status
completed outcome result now s = record s {
  in_progress = false;
  last_outcome = some outcome;
  last_completed_at = some now;
  route_changes = result;
  last_duration_ms = duration_ms s.last_started_at now s.last_duration_ms;
}

unfoldable pub complete : Outcome → Text → ReconciliationResult → ℕ → Status → Status
complete not_configured summary result now s = record (completed not_configured result now s) {
  consecutive_failures = 0;
  last_error = none;
}
complete success summary result now s = record (completed success result now s) {
  last_success_at = some now;
  consecutive_failures = 0;
  last_error = none;
}
complete failure summary result now s = record (completed failure result now s) {
  consecutive_failures = suc s.consecutive_failures;
  last_error = some summary;
}

-- What happens to a tracker.
pub data Event : Type 0 where
  started : ℕ → Event
  ended : Outcome → Text → ReconciliationResult → ℕ → Event

abbrev pub track : Status → Event → Status
track s (started now) = start now s
track s (ended outcome summary result now) = complete outcome summary result now s

unfoldable pub track_all : Status → List Event → Status
track_all s [] = s
track_all s (e ∷ events) = track_all (track s e) events
