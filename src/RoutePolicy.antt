-- ===== src/RoutePolicy.antt =====
-- backend/internal/routepolicy: the persisted policies of the routes.
pub mod Store
