-- ===== src/Tests/DiscoveryTests.antt =====
-- Tests and examples for discovery: a panel that counts the requests for allocations.
use pelican_mc_router.Prelude.{
  ℕ, suc, ◌≡◌, refl, ap, true, false, none, List, [], ◌∷◌, map, all, any, select, contains, String,
  ok,
}
use pelican_mc_router.Prelude.Dict.{lookup, insert}
use pelican_mc_router.Prelude.Int.{pos, int_eq}
use pelican_mc_router.Text.{text, text_eq, trim_space}
use pelican_mc_router.Text.Ipv6.{is_unspecified}
use pelican_mc_router.Models.{MinecraftServer}
use pelican_mc_router.Discovery.Service.{
  ServerResource, EggResource, PelicanClient, is_minecraft_egg, resolve_backend_host, eggs_by_id,
  add_allocations, load_allocations, is_minecraft_server, locate, collect, discover,
}
use pelican_mc_router.Discovery.Service.Laws.{is_usable, discover-usable}
use pelican_mc_router.Discovery.Service.Found.{DescribedAll, runs_minecraft, discover-minecraft}
use pelican_mc_router.Tests.Data.{ascii}

unspecified_test :
    map is_unspecified
      (text "0.0.0.0" ∷ text "::" ∷ text "0:0::0" ∷ text "::0.0.0.0" ∷ text "0:0:0:0:0:0:0:0" ∷ [])
    ≡ true ∷ true ∷ true ∷ true ∷ true ∷ []
unfolding is_unspecified all
unspecified_test = refl

specified_test :
    map is_unspecified (
      text "10.0.0.1"
      ∷ text "::1"
      ∷ text "::%eth0"
      ∷ text "host"
      ∷ text "::ffff:0.0.0.0"
      ∷ text "0:0:0:0:0:0:0:0::"
      ∷ text ":::"
      ∷ text "0"
      ∷ [])
    ≡ false ∷ false ∷ false ∷ false ∷ false ∷ false ∷ false ∷ false ∷ []
unfolding is_unspecified all
specified_test = refl

abbrev server_on : String → ℕ → ℕ → ServerResource
server_on uuid node egg = record {
  id = pos 1;
  uuid = text uuid;
  identifier = text "ident";
  name = text "name";
  suspended = false;
  node = pos node;
  allocation = pos 7;
  egg = pos egg;
  status = none;
}

abbrev panel_servers : List ServerResource
panel_servers = server_on "u-1" 1 3 ∷ server_on "u-2" 2 4 ∷ server_on "u-3" 1 3 ∷ []

abbrev panel_eggs : List EggResource
panel_eggs =
    record { id = pos 3; tags = text " MineCraft" ∷ [] } ∷ record { id = pos 4; tags = [] } ∷ []

abbrev panel : PelicanClient ℕ
panel = record {
  list_servers = λ w. (ok panel_servers, w);
  list_eggs = λ w. (ok panel_eggs, w);
  list_node_allocations =
      λ node w. (ok (record { id = pos 7; ip = text "0.0.0.0"; port = pos 25565 } ∷ []), suc w);
}

abbrev located_at : String → MinecraftServer
located_at uuid = record {
  id = pos 1;
  uuid = text uuid;
  identifier = text "ident";
  name = text "name";
  node_id = pos 1;
  egg_id = pos 3;
  allocation_id = pos 7;
  backend_ip = text "10.0.0.5";
  backend_port = pos 25565;
  suspended = false;
  status = none;
}

discovered : discover panel (text "10.0.0.5") 0 ≡ (ok (located_at "u-1" ∷ located_at "u-3" ∷ []), 2)
unfolding discover load_allocations add_allocations eggs_by_id collect locate is_minecraft_server
    is_minecraft_egg resolve_backend_host is_unspecified trim_space lookup insert contains any all
    int_eq text_eq
discovered = refl

discovered_ok :
    (discover panel (text "10.0.0.5") 0).0 ≡ ok (located_at "u-1" ∷ located_at "u-3" ∷ [])
discovered_ok = ap (λ r. r.0) discovered

discover-usable_example : all is_usable (located_at "u-1" ∷ located_at "u-3" ∷ []) ≡ true
discover-usable_example = discover-usable panel (text "10.0.0.5") 0 discovered_ok

discover-minecraft_example :
    DescribedAll panel
      (text "10.0.0.5")
      panel_servers
      (select (runs_minecraft panel_eggs) panel_servers)
      (located_at "u-1" ∷ located_at "u-3" ∷ [])
discover-minecraft_example = discover-minecraft panel (text "10.0.0.5") 0 discovered_ok refl refl

minecraft_test :
    select (runs_minecraft panel_eggs) panel_servers
    ≡ server_on "u-1" 1 3 ∷ server_on "u-3" 1 3 ∷ []
unfolding select runs_minecraft trim_space text_eq int_eq
minecraft_test = refl
