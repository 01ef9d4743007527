-- ===== src/Discovery.antt =====
-- backend/internal/discovery: the Minecraft servers of a Pelican panel.
pub mod Service
