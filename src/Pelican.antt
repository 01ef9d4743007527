-- ===== src/Pelican.antt =====
-- backend/internal/pelican: the client of the Pelican panel.
pub mod Pagination
