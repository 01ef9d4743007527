-- ===== src/Access.antt =====
-- Who may call the management plane, and how often: backend/internal/actioncontrol, bootstrap and
-- dashboardauth.
pub mod Limiter
pub mod Bearer
