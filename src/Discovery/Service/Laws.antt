-- ===== src/Discovery/Service/Laws.antt =====
-- About `Discover` of backend/internal/discovery/service.go: the servers that it returns.
use pelican_mc_router.Prelude.{
  ◌≡◌, inl, inr, Bool, true, false, not, ◌&&◌, List, [], ◌∷◌, ◌++◌, arith, is_empty, all,
  all-append, Result, ok, Result-cases, Option-cases, Bool-cases,
}
use pelican_mc_router.Prelude.Dict.{Dict, lookup}
use pelican_mc_router.Prelude.Int.{ℤ, int_eq}
use pelican_mc_router.Text.{Text, Unicode}
use pelican_mc_router.Text.Ipv6.{is_unspecified}
use pelican_mc_router.Models.{MinecraftServer}
use pelican_mc_router.Discovery.Service.{
  ServerResource, EggResource, AllocationResource, PelicanClient, DiscoverError,
  resolve_backend_host, eggs_by_id, load_allocations, is_minecraft_server, locate, collect,
  discover,
}

-- A backend host that can be connected to.
unfoldable pub is_usable : MinecraftServer → Bool
is_usable server = not (is_empty server.backend_ip) && not (is_unspecified server.backend_ip)

module _ ⦃u : Unicode⦄ where
  resolved :
      (wildcard ip : Text) {host : Text}
      → resolve_backend_host wildcard ip ≡ ok host
      → (is_empty host ≡ false) × (is_unspecified host ≡ false)
  unfolding resolve_backend_host
  resolved wildcard ip h = (ground arith, ground arith)

  module _ (wildcard : Text) (eggs : Dict ℤ EggResource) (table : Dict ℤ AllocationResource) where
    located :
        (server : ServerResource) {found : MinecraftServer}
        → locate wildcard eggs table server ≡ ok found
        → is_usable found ≡ true
    unfolding locate is_usable
    located server h = elim (Option-cases (lookup server.allocation table)) [
      | inl missing ↦ absurd (ground arith)
      | inr (a, there) ↦ elim (Result-cases (resolve_backend_host wildcard a.ip)) [
        | inr (e, bad) ↦ absurd (ground arith)
        | inl (host, good) ↦ ground (arith, resolved wildcard a.ip good)
      ]
    ]

    -- What one loop from `before` on collects.
    collected :
        (before : List MinecraftServer) (servers : List ServerResource)
        {found : List MinecraftServer}
        → collect wildcard eggs table before servers ≡ ok found
        → all is_usable found ≡ all is_usable before
    unfolding collect all
    collected before [] h = ground arith
    collected before (server ∷ servers) {found = found} h =
        elim (Bool-cases (is_minecraft_server eggs server)) [
          | inr other ↦ collected before servers {found = found} (ground arith)
          | inl minecraft ↦ elim (Result-cases (locate wildcard eggs table server)) [
            | inr (e, bad) ↦ absurd (ground arith)
            | inl (m, good) ↦
                let usable = located server good in
                let kept = collected (before ++ m ∷ []) servers {found = found} (ground arith) in
                ground (arith, all-append is_usable before (m ∷ []))
          ]
        ]

  module _ {W : Type 0} (client : PelicanClient W) (wildcard : Text) (w : W) where
    -- Every discovered server has a backend host that is neither empty nor unspecified.
    pub discover-usable :
        {found : List MinecraftServer}
        → (discover client wildcard w).0 ≡ ok found
        → all is_usable found ≡ true
    unfolding discover all
    discover-usable {found = found} h = elim (Result-cases (client.list_servers w).0) [
      | inr (e, bad) ↦ absurd (ground arith)
      | inl (listed, good) ↦ elim (Result-cases (client.list_eggs (client.list_servers w).1).0) [
        | inr (e, bad) ↦ absurd (ground arith)
        | inl (eggs, read) ↦
            let loaded : Result DiscoverError (Dict ℤ AllocationResource) × W =
              load_allocations client [] [] listed (client.list_eggs (client.list_servers w).1).1 in
            elim (Result-cases loaded.0) [
              | inr (e, bad) ↦ absurd (ground arith)
              | inl (table, there) ↦
                  (collected wildcard (eggs_by_id [] eggs) table [] listed {found = found}
                    (ground arith))
            ]
      ]
    ]
