-- ===== src/Tests/Data.antt =====
-- Concrete parameters: ASCII tables for texts, an mc-router that is a map, and a few servers.
use pelican_mc_router.Prelude.{
  ℕ, String, ◌≡◌, refl, false, Option, none, List, [], ◌∷◌, arith, ==-self, Result, ok,
}
use pelican_mc_router.Prelude.Dict.{Dict, lookup, insert, erase, lookup-insert, lookup-erase}
use pelican_mc_router.Prelude.Int.{pos}
use pelican_mc_router.Text.{Text, text, text_eq, Unicode, ascii_lower, ascii_space}
use pelican_mc_router.Models.{MinecraftServer, Policy}
use pelican_mc_router.Router.{Route}
use pelican_mc_router.Router.Planner.{Planner}
use pelican_mc_router.McRouter.Controller.{RouteClient, Controller}
use pelican_mc_router.McRouter.Controller.Server.{IsRouteServer}
use pelican_mc_router.McRouter.Controller.Success.{IsResponsive}

instance abbrev pub ascii : Unicode
ascii = record {
  lower = ascii_lower;
  space = ascii_space;
  lower_ascii = λ c h. refl;
  space_ascii = λ c h. refl;
}

-- An mc-router that never fails: the world is its route table.
abbrev pub memory : RouteClient (Dict Text Text)
memory = record {
  context_err = λ w. (ok tt, w);
  list_routes = λ w. (ok w, w);
  create_route = λ h b w. (ok tt, insert h b w);
  delete_route = λ h w. (ok tt, erase h w);
}

abbrev pub routed : Dict Text Text → Text → Option Text
routed w j = lookup j w

current_is :
    (w current : Dict Text Text)
    → ◌≡◌ {A = Result Text (Dict Text Text)} (ok w) (ok current)
    → (j : Text) → lookup j current ≡ lookup j w
current_is w current h j = cc

pub memory-IsRouteServer : IsRouteServer memory routed
memory-IsRouteServer = record {
  context_keeps = λ w j. refl;
  list_keeps = λ w j. refl;
  list_reads = current_is;
  create_keeps = λ h b w j other. ground (arith, lookup-insert j h b w);
  create_sets = λ h b w done. ground (arith, lookup-insert h h b w, ==-self h);
  delete_keeps = λ h w j other. ground (arith, lookup-erase j h w);
  delete_clears = λ h w done. ground (arith, lookup-erase h h w, ==-self h);
}

pub memory-IsResponsive : IsResponsive memory
memory-IsResponsive = record {
  live = λ w. refl;
  lists = λ w. refl;
  creates = λ h b w. refl;
  deletes = λ h w. refl;
}

abbrev pub server_named : String → String → MinecraftServer
server_named uuid name = record {
  id = pos 1;
  uuid = text uuid;
  identifier = text "ident";
  name = text name;
  node_id = pos 1;
  egg_id = pos 1;
  allocation_id = pos 1;
  backend_ip = text "10.0.0.5";
  backend_port = pos 25565;
  suspended = false;
  status = none;
}

abbrev pub domain_planner : Planner
domain_planner = record { domain = text "mc.example.com" }

abbrev pub two_servers : List MinecraftServer
two_servers = server_named "u-1" "Techopolis" ∷ server_named "u-2" " Sky__Block! " ∷ []

abbrev pub alias_policy : Policy
alias_policy = record {
  server_uuid = text "u-1";
  primary_hostname = [];
  aliases = text "Play.Example.Com." ∷ [];
  excluded = false;
  revision = pos 1;
}

abbrev pub alias_table : Dict Text Policy
alias_table = (text "u-1", alias_policy) ∷ []

abbrev pub route : String → ℕ → Route
route host port = record {
  server_id = text "u-1";
  hostname = text host;
  backend = record { host = text "10.0.0.5"; port = pos port };
}

abbrev pub two_routes : List Route
two_routes = route "a.mc.example.com" 25565 ∷ route "B.mc.example.com " 25566 ∷ []

abbrev pub managed : Controller
managed = record { managed_domain = text "mc.example.com" }

-- One route to replace, one stale one, and one of somebody else.
abbrev pub before : Dict Text Text
before =
    (text "a.mc.example.com", text "10.0.0.9:1")
    ∷ (text "old.mc.example.com", text "x:1")
    ∷ (text "other.org", text "y:2")
    ∷ []
