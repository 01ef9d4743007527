-- ===== src/Setup.antt =====
-- backend/internal/setup: the first setup of the service, and later changes of its settings.
pub mod Service
pub mod Stored
pub mod Durable
