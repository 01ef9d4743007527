-- ===== src/History/Operations.antt =====
-- backend/internal/operationalhistory: the reconciliations and other operations, and the recorder that
-- the runtime reports them to.
use pelican_mc_router.Prelude.{ℕ, Bool, List, [], ◌∷◌, contains, ◌&&◌, if◌then◌else◌}
use pelican_mc_router.Prelude.Int.{ℤ, pos, le_int}
use pelican_mc_router.Text.{Text, text, text_eq}
use pelican_mc_router.Storage.{fail, pure, ◌>>=◌}
use pelican_mc_router.Router.Result.{ReconciliationResult}
use pelican_mc_router.Runtime.Status.{Outcome, not_configured, success, failure}
use pelican_mc_router.History.{Row, invalid_event, Action, append_event, list_events, time_of}

pub record OperationEvent : Type 0 where
  pub kind : Text
  pub outcome : Text
  pub desired : ℤ
  pub created : ℤ
  pub updated : ℤ
  pub deleted : ℤ
  pub changed : Bool

unfoldable pub is_valid_event : OperationEvent → Bool
is_valid_event e =
    contains (text "reconciliation" ∷ text "setup" ∷ text "settings" ∷ text "manual_reconcile" ∷ [])
      e.kind
    && (contains (text "not_configured" ∷ text "success" ∷ text "failure" ∷ []) e.outcome
        && (le_int (pos 0) e.desired
            && (le_int (pos 0) e.created
                && (le_int (pos 0) e.updated && le_int (pos 0) e.deleted))))

unfoldable pub append_operation : ℕ → ℕ → ℕ → OperationEvent → Action OperationEvent ℕ
append_operation kept now occurred_at e =
    if is_valid_event e then append_event kept (time_of occurred_at now) e else fail invalid_event

unfoldable pub list_operations : ℤ → Action OperationEvent (List (Row OperationEvent))
list_operations limit = list_events limit

-- `reconciliationOutcome`, which covers the outcomes of the runtime.
unfoldable pub reconciliation_outcome : Outcome → Text
reconciliation_outcome not_configured = text "not_configured"
reconciliation_outcome success = text "success"
reconciliation_outcome failure = text "failure"

unfoldable pub reconciliation_event : Outcome → ReconciliationResult → OperationEvent
reconciliation_event outcome result = record {
  kind = text "reconciliation";
  outcome = reconciliation_outcome outcome;
  desired = pos result.desired;
  created = pos result.created;
  updated = pos result.updated;
  deleted = pos result.deleted;
  changed = result.changed;
}

-- `RecordReconciliation` of a recorder with a store.
unfoldable pub record_reconciliation :
    ℕ → ℕ → Outcome → ReconciliationResult → Action OperationEvent (Unit {0})
record_reconciliation kept now outcome result =
    append_operation kept now 0 (reconciliation_event outcome result) >>= (λ key. pure tt)
