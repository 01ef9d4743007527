-- ===== src/Infrared.antt =====
-- backend/internal/router/infrared: reconciliation by proxy configuration files.
pub mod Marker
pub mod Renderer
pub mod Files
pub mod Planned
pub mod Controller
pub mod Reloading
