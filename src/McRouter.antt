-- ===== src/McRouter.antt =====
-- backend/internal/router/mcrouter: reconciliation through the mc-router HTTP API.
pub mod Client
pub mod Controller
pub mod Planned
