-- ===== src/Runtime/Inventory.antt =====
-- backend/internal/runtime/inventory.go: the servers of the last discovery that succeeded. The lock makes
-- each method one step, and the slice that is handed out is a copy.
use pelican_mc_router.Prelude.{
  ◌≡◌, arith, Bool, true, false, List, [], if◌then◌else◌, Result, ok, err,
}
use pelican_mc_router.Text.{Text, text}
use pelican_mc_router.Models.{MinecraftServer}
use pelican_mc_router.Router.Service.{Discover}

pub record Inventory : Type 0 where
  pub servers : List MinecraftServer
  pub ready : Bool

abbrev pub new_inventory : Inventory
new_inventory = record { servers = []; ready = false }

-- `Refresh`, with the inventory in front of the world.
unfoldable pub refresh :
    {W : Type 0} → Discover W → Inventory × W → Result Text (Unit {0}) × (Inventory × W)
refresh discover (i, w) =
    let (found, w1) = discover w in
    elim found [
      | err e ↦ (err e, (i, w1))
      | ok servers ↦ (ok tt, (record { servers = servers; ready = true }, w1))
    ]

-- `Discover`, which asks nobody.
unfoldable pub cached : {W : Type 0} → Discover (Inventory × W)
cached (i, w) =
    (if i.ready then ok i.servers else err (text "inventory snapshot unavailable"), (i, w))

module _ {W : Type 0} (discover : Discover W) (i : Inventory) (w : W) where
  -- After a refresh, the servers that were found are given to every reader; after one that fails, each
  -- reader is given what it was given before.
  pub refresh-cached :
      ((servers : List MinecraftServer)
        → (discover w).0 ≡ ok servers
        → (v : W) → (cached ((refresh discover (i, w)).1.0, v)).0 ≡ ok servers)
      × ((e : Text)
          → (discover w).0 ≡ err e
          → (v : W) → cached ((refresh discover (i, w)).1.0, v) ≡ cached (i, v))
  unfolding refresh cached
  refresh-cached = (λ servers found v. ground arith, λ e failed v. ground arith)
