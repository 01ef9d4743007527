-- ===== src/Router.antt =====
-- backend/internal/router: the routes, and the modules that derive them.
pub mod Result
pub mod Label
pub mod Hostname
pub mod Planner
pub mod Service
pub mod Synchronizer
use pelican_mc_router.Prelude.Int.{ℤ}
use pelican_mc_router.Text.{Text}

pub record Backend : Type 0 where
  pub host : Text
  pub port : ℤ

pub record Route : Type 0 where
  pub server_id : Text
  pub hostname : Text
  pub backend : Backend
