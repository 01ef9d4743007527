-- ===== src/Router/Result.antt =====
-- `ReconciliationResult` of backend/internal/router/reconciliation_result.go.
use pelican_mc_router.Prelude.{ℕ, Bool, false}

pub record ReconciliationResult : Type 0 where
  pub desired : ℕ
  pub created : ℕ
  pub updated : ℕ
  pub deleted : ℕ
  pub changed : Bool

abbrev pub no_result : ReconciliationResult
no_result = record { desired = 0; created = 0; updated = 0; deleted = 0; changed = false }
