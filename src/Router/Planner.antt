-- ===== src/Router/Planner.antt =====
-- backend/internal/router/planner.go: the desired route set of the discovered servers.
pub mod Spec
pub mod Laws
use pelican_mc_router.Prelude.{
  Bool, true, false, not, ◌&&◌, ◌||◌, Option, none, some, List, [], ◌∷◌, ◌++◌, is_empty, contains,
  ◌==◌, if◌then◌else◌, Result, ok, err, ◌>>=◌,
}
use pelican_mc_router.Prelude.Dict.{Dict, lookup}
use pelican_mc_router.Prelude.Int.{ℤ, pos, le_int}
use pelican_mc_router.Text.{Text, text_eq, Unicode, trim_space}
use pelican_mc_router.Models.{MinecraftServer, Policy}
use pelican_mc_router.Router.{Route, Backend}
use pelican_mc_router.Router.Hostname.{
  is_valid_hostname, normalize_hostname, normalize_domain, build_hostname,
}

-- The texts with which `Plan` wraps `ErrInvalidRoutePlan`.
pub data PlanError : Type 0 where
  server_identity backend policy_identity excluded_policy invalid_hostname hostname_collision :
      PlanError

pub record Planner : Type 0 where
  pub domain : Text

pub data NewPlannerError : Type 0 where
  empty_domain : NewPlannerError

-- `routes` and `hostnames` of `Plan`
pub record Progress : Type 0 where
  pub routes : List Route
  pub hostnames : List Text

abbrev pub no_progress : Progress
no_progress = record { routes = []; hostnames = [] }

abbrev pub route_for : MinecraftServer → Text → Route
route_for server hostname = record {
  server_id = server.uuid;
  hostname = hostname;
  backend = record { host = server.backend_ip; port = server.backend_port };
}

abbrev pub has_aliases : Policy → Bool
has_aliases policy = not (is_empty policy.aliases)

module _ ⦃u : Unicode⦄ where
  unfoldable pub new_planner : Text → Result NewPlannerError Planner
  unfolding normalize_domain
  new_planner domain =
      let normal = normalize_domain domain in
      if is_empty normal then err empty_domain else ok (record { domain = normal })

  unfoldable pub append_route : Progress → MinecraftServer → Text → Result PlanError Progress
  append_route st server raw =
      let normal = normalize_hostname raw in
      if not (is_valid_hostname normal)
      then err invalid_hostname
      else if contains st.hostnames normal
      then err hostname_collision
      else ok (record {
        routes = st.routes ++ route_for server normal ∷ [];
        hostnames = normal ∷ st.hostnames;
      })

  -- The loop over a policy's aliases.
  unfoldable pub append_routes : Progress → MinecraftServer → List Text → Result PlanError Progress
  append_routes st server [] = ok st
  append_routes st server (alias ∷ aliases) = do
    next ← append_route st server alias
    append_routes next server aliases

  -- A server that has no policy, and one that has.
  unfoldable pub plan_with_policy :
      Planner → Progress → MinecraftServer → Option Policy → Result PlanError Progress
  plan_with_policy p st server none = append_route st server (build_hostname server p.domain)
  plan_with_policy p st server (some policy) =
      if not (policy.server_uuid == server.uuid)
      then err policy_identity
      else if policy.excluded
      then (if not (is_empty policy.primary_hostname) || has_aliases policy
          then err excluded_policy
          else ok st)
      else do
        let generated = build_hostname server p.domain
        let primary =
            if is_empty policy.primary_hostname then generated else policy.primary_hostname
        next ← append_route st server primary
        append_routes next server policy.aliases

  -- One round of the loop over the servers.
  unfoldable pub plan_server :
      Planner → Dict Text Policy → Progress → MinecraftServer → Result PlanError Progress
  plan_server p policies st server =
      if server.suspended
      then ok st
      else if is_empty (trim_space server.uuid)
      then err server_identity
      else if is_empty (trim_space server.backend_ip) || le_int server.backend_port (pos 0)
      then err backend
      else plan_with_policy p st server (lookup server.uuid policies)

  unfoldable pub plan_servers :
      Planner → Dict Text Policy → Progress → List MinecraftServer → Result PlanError Progress
  plan_servers p policies st [] = ok st
  plan_servers p policies st (server ∷ servers) = do
    next ← plan_server p policies st server
    plan_servers p policies next servers

  unfoldable pub plan :
      Planner → List MinecraftServer → Dict Text Policy → Result PlanError (List Route)
  plan p servers policies = do done ← plan_servers p policies no_progress servers; ok done.routes
