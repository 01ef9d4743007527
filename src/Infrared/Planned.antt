-- ===== src/Infrared/Planned.antt =====
-- The planner's alias routes at the Infrared controller: backend/internal/router/planner.go gives
-- every alias the identifier of its server, and infrared/controller.go names files by it.
use pelican_mc_router.Prelude.{
  ◌≡◌, ◌≢◌, refl, ap, Bool, true, false, some, List, [], ◌∷◌, ◌++◌, arith, is_empty, contains,
  contains-append, distinct, Eq, ==-self, if◌then◌else◌, Result, ok,
}
use pelican_mc_router.Prelude.Dict.{Dict, lookup}
use pelican_mc_router.Text.{Text, text_eq, Unicode, trim_space}
use pelican_mc_router.Models.{MinecraftServer, Policy}
use pelican_mc_router.Router.{Route}
use pelican_mc_router.Router.Hostname.{build_hostname}
use pelican_mc_router.Router.Planner.{Planner, has_aliases, plan}
use pelican_mc_router.Router.Planner.Spec.{routes_to, server_routes, desired_routes}
use pelican_mc_router.Router.Planner.Laws.{plan-eq-ok}
use pelican_mc_router.Infrared.Renderer.{ProxyConfig}
use pelican_mc_router.Infrared.Files.{FileSystem}
use pelican_mc_router.Infrared.Controller.{reconcile_changes}
use pelican_mc_router.Infrared.Controller.Laws.{server_ids, reconcile_changes-refuses}

module _ {ℓ} {A : Type ℓ} ⦃e : Eq A⦄ where
  distinct-append_left : (xs ys : List A) → distinct xs ≡ false → distinct (xs ++ ys) ≡ false
  unfolding distinct
  distinct-append_left [] ys h = ground arith
  distinct-append_left (x ∷ xs) ys h =
      ground (arith, contains-append xs ys x, distinct-append_left xs ys)

  distinct-append_right : (xs ys : List A) → distinct ys ≡ false → distinct (xs ++ ys) ≡ false
  unfolding distinct
  distinct-append_right [] ys h = h
  distinct-append_right (x ∷ xs) ys h = ground (arith, distinct-append_right xs ys h)

module _ ⦃u : Unicode⦄ where
  server_ids-append : (rs ss : List Route) → server_ids (rs ++ ss) ≡ server_ids rs ++ server_ids ss
  unfolding server_ids
  server_ids-append [] ss = refl
  server_ids-append (r ∷ rs) ss = ap (trim_space r.server_id ∷◌) (server_ids-append rs ss)

  module _ (p : Planner) (policies : Dict Text Policy) (server : MinecraftServer) (policy : Policy)
      (active : server.suspended ≡ false) (stored : lookup server.uuid policies ≡ some policy)
      (included : policy.excluded ≡ false) (aliased : has_aliases policy ≡ true) where
    routes_to-shared :
        (primary : Text) (aliases : List Text)
        → is_empty aliases ≡ false
        → distinct (server_ids (routes_to server (primary ∷ aliases))) ≡ false
    unfolding server_ids routes_to distinct contains
    routes_to-shared primary [] h = cc
    routes_to-shared primary (a ∷ rest) h = ground (arith, ==-self (trim_space server.uuid))

    server_routes-shared : distinct (server_ids (server_routes p policies server)) ≡ false
    unfolding server_routes build_hostname
    server_routes-shared =
        rw (active, stored, included)
          (routes_to-shared
            (if is_empty policy.primary_hostname
              then build_hostname server p.domain
              else policy.primary_hostname)
            policy.aliases (ground arith))

    desired_routes-shared :
        (earlier later : List MinecraftServer)
        → distinct (server_ids (desired_routes p policies (earlier ++ server ∷ later))) ≡ false
    unfolding desired_routes
    desired_routes-shared [] later =
        rw (server_ids-append (server_routes p policies server) (desired_routes p policies later)) (
          distinct-append_left (server_ids (server_routes p policies server))
            (server_ids (desired_routes p policies later)) server_routes-shared)
    desired_routes-shared (s ∷ earlier) later =
        rw
          (server_ids-append (server_routes p policies s)
            (desired_routes p policies (earlier ++ server ∷ later)))
          (distinct-append_right (server_ids (server_routes p policies s))
            (server_ids (desired_routes p policies (earlier ++ server ∷ later)))
            (desired_routes-shared earlier later))

    -- If a server that is not suspended has a policy with an alias and is not excluded, then the
    -- Infrared controller refuses the planned routes of any servers it is among, the files as
    -- they were.
    pub plan-refused :
        {W F X : Type 0} (fs : FileSystem W F) (marshal : ProxyConfig → Result Text Text)
        (files : W → X) (context_keeps : (w : W) → files (fs.context_err w).1 ≡ files w)
        (earlier later : List MinecraftServer) {routes : List Route} (directory : Text) (w : W)
        → plan p (earlier ++ server ∷ later) policies ≡ ok routes
        → ((changed : Bool) → (reconcile_changes fs marshal directory routes w).0 ≢ ok changed)
          × (files (reconcile_changes fs marshal directory routes w).1 ≡ files w)
    plan-refused fs marshal files context_keeps earlier later {routes} directory w planned =
        let (_, _, same) = plan-eq-ok p (earlier ++ server ∷ later) policies planned in
        reconcile_changes-refuses marshal fs files context_keeps directory routes w
          (rw same (desired_routes-shared earlier later))
