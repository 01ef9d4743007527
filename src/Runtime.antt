-- ===== src/Runtime.antt =====
-- backend/internal/runtime: the status of reconciliations, and the task that runs them.
pub mod Inventory
pub mod Status
pub mod Build
pub mod Refresh
pub mod Activate
