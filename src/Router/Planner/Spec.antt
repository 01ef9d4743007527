-- ===== src/Router/Planner/Spec.antt =====
-- What `Plan` promises, stated without its loops: which servers it accepts, and the routes that it
-- wants for them.
use pelican_mc_router.Prelude.{
  Bool, true, not, ◌&&◌, ◌||◌, Option, none, some, List, [], ◌∷◌, ◌++◌, map, all, distinct,
  is_empty, ◌==◌, if◌then◌else◌,
}
use pelican_mc_router.Prelude.Dict.{Dict, lookup}
use pelican_mc_router.Prelude.Int.{pos, le_int}
use pelican_mc_router.Text.{Text, text_eq, Unicode, trim_space}
use pelican_mc_router.Models.{MinecraftServer, Policy}
use pelican_mc_router.Router.{Route}
use pelican_mc_router.Router.Hostname.{is_valid_hostname, normalize_hostname, build_hostname}
use pelican_mc_router.Router.Planner.{Planner, route_for}

-- A policy names its own server, and an excluding policy names no host.
abbrev pub policy_consistent : MinecraftServer → Option Policy → Bool
policy_consistent server none = true
policy_consistent server (some policy) =
    policy.server_uuid == server.uuid
    && (not policy.excluded || (is_empty policy.primary_hostname && is_empty policy.aliases))

module _ ⦃u : Unicode⦄ where
  -- A server that takes no part, or has an identity, a backend and a consistent policy.
  unfoldable pub server_consistent : Dict Text Policy → MinecraftServer → Bool
  server_consistent policies server =
      server.suspended
      || (not (is_empty (trim_space server.uuid))
          && (not (is_empty (trim_space server.backend_ip))
              && (not (le_int server.backend_port (pos 0))
                  && policy_consistent server (lookup server.uuid policies))))

  -- The names that a server is to be reached by, before they are normalised.
  abbrev pub names : Planner → MinecraftServer → Option Policy → List Text
  names p server none = build_hostname server p.domain ∷ []
  names p server (some policy) =
      if policy.excluded
      then []
      else (if is_empty policy.primary_hostname
          then build_hostname server p.domain
          else policy.primary_hostname)
        ∷ policy.aliases

  unfoldable pub routes_to : MinecraftServer → List Text → List Route
  routes_to server hostnames = map (λ h. route_for server (normalize_hostname h)) hostnames

  unfoldable pub server_routes : Planner → Dict Text Policy → MinecraftServer → List Route
  unfolding routes_to
  server_routes p policies server =
      if server.suspended
      then []
      else routes_to server (names p server (lookup server.uuid policies))

  unfoldable pub desired_routes : Planner → Dict Text Policy → List MinecraftServer → List Route
  desired_routes p policies [] = []
  desired_routes p policies (server ∷ servers) =
      server_routes p policies server ++ desired_routes p policies servers

-- Every host name is valid, and no two routes share one.
unfoldable pub routable : List Route → Bool
routable routes =
    all (λ (r : Route). is_valid_hostname r.hostname) routes
    && distinct (map (λ (r : Route). r.hostname) routes)
