-- ===== src/McRouter/Controller/Prepare.antt =====
-- The desired state that the validation loop builds.
use pelican_mc_router.Prelude.{
  ◌≡◌, refl, Bool, not, ◌&&◌, Option, none, some, List, [], ◌∷◌, map, arith, contains,
  contains-append, is_empty, ◌==◌, if◌then◌else◌, ok, Result-cases, inl, inr,
}
use pelican_mc_router.Prelude.Dict.{Dict, lookup, has, lookup-insert}
use pelican_mc_router.Prelude.Int.{pos, le_int}
use pelican_mc_router.Text.{Text, text_eq, Unicode, trim_space}
use pelican_mc_router.Router.{Route}
use pelican_mc_router.McRouter.Controller.{
  RouteClient, Prepared, nothing_prepared, is_valid_hostname, route_hostname, route_backend,
  prepare_route, prepare_routes,
}
use pelican_mc_router.McRouter.Controller.Server.{IsRouteServer}

abbrev pub or_else {ℓ} : {A : Type ℓ} → Option A → Option A → Option A
or_else none o = o
or_else (some a) o = some a

-- The host names that were collected are the keys of the map.
abbrev pub InLine : Prepared → Type 0
InLine p = (j : Text) → contains p.hostnames j ≡ has j p.backends

module _ ⦃u : Unicode⦄ where
  -- The host names and backends that the routes ask for.
  unfoldable pub route_table : List Route → Dict Text Text
  route_table routes = map (λ r. (route_hostname r, route_backend r)) routes

  -- The routes' conditions, one by one.
  unfoldable pub route_fine : Route → Bool
  route_fine route =
      not (is_empty (route_hostname route))
      && (is_valid_hostname (route_hostname route)
          && (not (is_empty (trim_space route.backend.host))
              && (le_int (pos 1) route.backend.port && le_int route.backend.port (pos 65535))))

  prepare_route-lookup :
      (p : Prepared) (route : Route) {next : Prepared} (j : Text)
      → prepare_route p route ≡ ok next
      → lookup j next.backends
        ≡ or_else
            (lookup j p.backends)
            (if j == route_hostname route then some (route_backend route) else none)
  unfolding prepare_route
  prepare_route-lookup p route j done =
      ground (arith, lookup-insert j (route_hostname route) (route_backend route) p.backends)

  prepare_route-InLine :
      (p : Prepared) (route : Route) {next : Prepared}
      → InLine p
      → prepare_route p route ≡ ok next
      → InLine next
  unfolding prepare_route contains
  prepare_route-InLine p route line done j = ground (
    arith,
    line j,
    contains-append p.hostnames (route_hostname route ∷ []) j,
    lookup-insert j (route_hostname route) (route_backend route) p.backends,
  )

  module _ {W : Type 0} (client : RouteClient W) where
    prepare_routes-cons :
        (p : Prepared) (route : Route) (routes : List Route) (w : W) {done : Prepared}
        → (prepare_routes client p (route ∷ routes) w).0 ≡ ok done
        → (next : Prepared) × (prepare_route p route ≡ ok next)
          × ((prepare_routes client next routes (client.context_err w).1).0 ≡ ok done)
    unfolding prepare_routes
    prepare_routes-cons p route routes w h = ground arith

    prepare_routes-lookup_from :
        (p : Prepared) (routes : List Route) (w : W) {done : Prepared} (j : Text)
        → (prepare_routes client p routes w).0 ≡ ok done
        → lookup j done.backends ≡ or_else (lookup j p.backends) (lookup j (route_table routes))
    unfolding prepare_routes route_table lookup
    prepare_routes-lookup_from p [] w j h = ground arith
    prepare_routes-lookup_from p (route ∷ routes) w j h =
        let (next, stepped, rest) = prepare_routes-cons p route routes w h in
        ground (
          arith,
          prepare_route-lookup p route j stepped,
          prepare_routes-lookup_from next routes (client.context_err w).1 j rest,
        )

    prepare_routes-InLine_from :
        (p : Prepared) (routes : List Route) (w : W) {done : Prepared}
        → InLine p
        → (prepare_routes client p routes w).0 ≡ ok done
        → InLine done
    unfolding prepare_routes
    prepare_routes-InLine_from p [] w line h j = ground (arith, line j)
    prepare_routes-InLine_from p (route ∷ routes) w line h j =
        let (next, stepped, rest) = prepare_routes-cons p route routes w h in
        prepare_routes-InLine_from next routes (client.context_err w).1
          (prepare_route-InLine p route line stepped) rest j

    -- The prepared map holds what the routes ask for.
    pub prepare_routes-lookup :
        (routes : List Route) (w : W) {done : Prepared} (j : Text)
        → (prepare_routes client nothing_prepared routes w).0 ≡ ok done
        → lookup j done.backends ≡ lookup j (route_table routes)
    unfolding lookup
    prepare_routes-lookup routes w j h = prepare_routes-lookup_from nothing_prepared routes w j h

    pub prepare_routes-InLine :
        (routes : List Route) (w : W) {done : Prepared}
        → (prepare_routes client nothing_prepared routes w).0 ≡ ok done
        → InLine done
    prepare_routes-InLine routes w h =
        prepare_routes-InLine_from nothing_prepared routes w (λ j. unfold contains has in refl) h

    -- Preparing does not call the server.
    pub prepare_routes-keeps :
        (table : W → Text → Option Text) (server : IsRouteServer client table) (p : Prepared)
        (routes : List Route) (w : W) (j : Text)
        → table (prepare_routes client p routes w).1 j ≡ table w j
    unfolding prepare_routes
    prepare_routes-keeps table server p [] w j = refl
    prepare_routes-keeps table server p (route ∷ routes) w j =
        elim (Result-cases (prepare_route p route)) [
          | inr (e, refused) ↦ ground (arith, server.context_keeps w j)
          | inl (next, stepped) ↦ ground (
            arith,
            server.context_keeps w j,
            prepare_routes-keeps table server next routes (client.context_err w).1 j,
          )
        ]
