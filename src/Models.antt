-- ===== src/Models.antt =====
-- backend/pkg/models/server.go and the persisted policy of backend/internal/routepolicy/policy.go:
-- the values that discovery, planning and storage hand to one another.
use pelican_mc_router.Prelude.{Bool, Option, List}
use pelican_mc_router.Prelude.Int.{ℤ}
use pelican_mc_router.Text.{Text}

pub record MinecraftServer : Type 0 where
  pub id : ℤ
  pub uuid : Text
  pub identifier : Text
  pub name : Text
  pub node_id : ℤ
  pub egg_id : ℤ
  pub allocation_id : ℤ
  pub backend_ip : Text
  pub backend_port : ℤ
  pub suspended : Bool
  pub status : Option Text

pub record Policy : Type 0 where
  pub server_uuid : Text
  pub primary_hostname : Text
  pub aliases : List Text
  pub excluded : Bool
  pub revision : ℤ
