-- ===== src/McRouter/Controller/Success.antt =====
-- Which reconciliations succeed, and which routes are refused.
use pelican_mc_router.Prelude.{
  ◌≡◌, ◌≢◌, refl, Bool, true, false, not, ◌&&◌, ◌||◌, none, List, [], ◌∷◌, map, arith, all,
  distinct, contains, ◌==◌, Result, ok, err, Result-cases, inl, inr,
}
use pelican_mc_router.Prelude.Dict.{Dict, lookup, has, lookup-insert}
use pelican_mc_router.Text.{Text, text_eq, Unicode}
use pelican_mc_router.Text.Sort.{sort_strings}
use pelican_mc_router.Router.{Route}
use pelican_mc_router.Router.Result.{ReconciliationResult}
use pelican_mc_router.McRouter.Controller.{
  RouteClient, Controller, Prepared, nothing_prepared, Done, rounds, create_round, delete_round,
  backend_of, route_hostname, route_backend, prepare_route, stale_hostnames, apply_changes,
  prepare_routes, reconcile_with_result, initial_result,
}
use pelican_mc_router.McRouter.Controller.Prepare.{route_fine}

abbrev pub accepted {ℓ κ} : {E : Type ℓ} {A : Type κ} → Result E A → Bool
accepted (ok a) = true
accepted (err e) = false

-- Every call succeeds, and the context stays live.
pub record IsResponsive {W : Type 0} (client : RouteClient W) : Type 0 where
  pub live : (w : W) → (client.context_err w).0 ≡ ok tt
  pub lists : (w : W) → accepted (client.list_routes w).0 ≡ true
  pub creates : (h b : Text) (w : W) → (client.create_route h b w).0 ≡ ok tt
  pub deletes : (h : Text) (w : W) → (client.delete_route h w).0 ≡ ok tt

module _ ⦃u : Unicode⦄ where
  -- What the controller demands of its routes.
  unfoldable pub routes_fine : List Route → Bool
  routes_fine routes = all route_fine routes && distinct (map route_hostname routes)

  unfoldable pub all_new : Prepared → List Route → Bool
  all_new p [] = true
  all_new p (route ∷ routes) = not (has (route_hostname route) p.backends) && all_new p routes

  prepare_route-accepted :
      (p : Prepared) (route : Route)
      → accepted (prepare_route p route)
        ≡ (route_fine route && not (has (route_hostname route) p.backends))
  unfolding prepare_route route_fine
  prepare_route-accepted p route = ground arith

  has-prepared :
      (p : Prepared) (route : Route) (next : Prepared) (j : Text)
      → prepare_route p route ≡ ok next
      → has j next.backends ≡ (j == route_hostname route || has j p.backends)
  unfolding prepare_route has
  has-prepared p route next j done =
      ground (arith, lookup-insert j (route_hostname route) (route_backend route) p.backends)

  all_new-prepared :
      (p : Prepared) (route : Route) (next : Prepared) (routes : List Route)
      → prepare_route p route ≡ ok next
      → all_new next routes
        ≡ (all_new p routes && not (contains (map route_hostname routes) (route_hostname route)))
  unfolding all_new contains
  all_new-prepared p route next [] done = refl
  all_new-prepared p route next (r ∷ routes) done = ground (
    arith,
    has-prepared p route next (route_hostname r) done,
    all_new-prepared p route next routes done,
  )

  module _ {W : Type 0} (client : RouteClient W)
      (live : (w : W) → (client.context_err w).0 ≡ ok tt) where
    prepare_routes-accepted :
        (p : Prepared) (routes : List Route) (w : W)
        → accepted (prepare_routes client p routes w).0 ≡ (routes_fine routes && all_new p routes)
    unfolding prepare_routes routes_fine all distinct all_new
    prepare_routes-accepted p [] w = refl
    prepare_routes-accepted p (route ∷ routes) w = elim (Result-cases (prepare_route p route)) [
      | inr (e, refused) ↦ ground (arith, live w, prepare_route-accepted p route)
      | inl (next, stepped) ↦ ground (
        arith,
        live w,
        prepare_route-accepted p route,
        all_new-prepared p route next routes stepped,
        prepare_routes-accepted next routes (client.context_err w).1,
      )
    ]

    all_new-nothing : (routes : List Route) → all_new nothing_prepared routes ≡ true
    unfolding all_new has lookup
    all_new-nothing [] = refl
    all_new-nothing (r ∷ routes) = all_new-nothing routes

    -- While the context is live, the routes are prepared exactly when all are valid and no two
    -- share a host name.
    pub prepare_routes-accepted_iff :
        (routes : List Route) (w : W)
        → accepted (prepare_routes client nothing_prepared routes w).0 ≡ routes_fine routes
    prepare_routes-accepted_iff routes w =
        rw (prepare_routes-accepted nothing_prepared routes w, all_new-nothing routes)
          (ground arith)

  module _ {W : Type 0} (client : RouteClient W) (responsive : IsResponsive client) where
    create_round-succeeds :
        (desired current : Dict Text Text) (h : Text) (r : ReconciliationResult) (w : W)
        → (create_round client desired current h r w).error ≡ none
    unfolding create_round
    create_round-succeeds desired current h r w = ground (
      arith,
      responsive.live w,
      responsive.creates h (backend_of desired h) (client.context_err w).1,
    )

    create_rounds-succeed :
        (desired current : Dict Text Text) (hs : List Text) (r : ReconciliationResult) (w : W)
        → (rounds (create_round client desired current) hs r w).error ≡ none
    unfolding rounds
    create_rounds-succeed desired current [] r w = refl
    create_rounds-succeed desired current (h ∷ hs) r w =
        let d : Done W = create_round client desired current h r w in
        ground (
          arith,
          create_round-succeeds desired current h r w,
          create_rounds-succeed desired current hs d.result d.world,
        )

    delete_round-succeeds :
        (h : Text) (r : ReconciliationResult) (w : W) → (delete_round client h r w).error ≡ none
    unfolding delete_round
    delete_round-succeeds h r w =
        ground (arith, responsive.live w, responsive.deletes h (client.context_err w).1)

    delete_rounds-succeed :
        (hs : List Text) (r : ReconciliationResult) (w : W)
        → (rounds (delete_round client) hs r w).error ≡ none
    unfolding rounds
    delete_rounds-succeed [] r w = refl
    delete_rounds-succeed (h ∷ hs) r w =
        let d : Done W = delete_round client h r w in
        ground (arith, delete_round-succeeds h r w, delete_rounds-succeed hs d.result d.world)

    apply_changes-succeeds :
        (c : Controller) (p : Prepared) (current : Dict Text Text) (r : ReconciliationResult)
        (w : W)
        → (apply_changes client c p current r w).error ≡ none
    unfolding apply_changes
    apply_changes-succeeds c p current r w =
        let d : Done W =
          rounds (create_round client p.backends current) (sort_strings p.hostnames) r w in
        ground (
          arith,
          create_rounds-succeed p.backends current (sort_strings p.hostnames) r w,
          delete_rounds-succeed (stale_hostnames c p.backends current) d.result d.world,
        )

    -- A reconciliation of valid routes with different host names succeeds, if its calls do.
    pub reconcile-succeeds :
        (c : Controller) (routes : List Route) (w : W)
        → routes_fine routes ≡ true
        → (reconcile_with_result client c routes w).error ≡ none
    unfolding reconcile_with_result
    reconcile-succeeds c routes w fine =
        let w1 : W = (client.context_err w).1 in
        let w2 : W = (prepare_routes client nothing_prepared routes w1).1 in
        let valid = prepare_routes-accepted_iff client responsive.live routes w1 in
        elim (Result-cases (prepare_routes client nothing_prepared routes w1).0) [
          | inr (e, invalid) ↦ ground arith
          | inl (p, prepared) ↦ elim (Result-cases (client.list_routes w2).0) [
            | inr (e, unlisted) ↦ ground (arith, responsive.lists w2)
            | inl (current, listed) ↦ ground (
              arith,
              responsive.live w,
              apply_changes-succeeds c p current (initial_result routes) (client.list_routes w2).1,
            )
          ]
        ]

  module _ {W : Type 0} (client : RouteClient W)
      (live : (w : W) → client.context_err w ≡ (ok tt, w)) where
    context-live : (w : W) → (client.context_err w).0 ≡ ok tt
    context-live w = rw (live w)

    context-still : (w : W) → (client.context_err w).1 ≡ w
    context-still w = rw (live w)

    prepare_routes-still :
        (p : Prepared) (routes : List Route) (w : W) → (prepare_routes client p routes w).1 ≡ w
    unfolding prepare_routes
    prepare_routes-still p [] w = refl
    prepare_routes-still p (route ∷ routes) w = elim (Result-cases (prepare_route p route)) [
      | inr (e, refused) ↦ ground (arith, context-live w, context-still w)
      | inl (next, stepped) ↦ ground (
        arith,
        context-live w,
        context-still w,
        prepare_routes-still next routes (client.context_err w).1,
      )
    ]

    -- Routes that are not all valid, or share a host name, are refused before any call to the
    -- server: the world is as it was, and no change is counted.
    pub reconcile-refuses :
        (c : Controller) (routes : List Route) (w : W)
        → routes_fine routes ≡ false
        → ((reconcile_with_result client c routes w).error ≢ none)
          × ((reconcile_with_result client c routes w).world ≡ w)
          × ((reconcile_with_result client c routes w).result ≡ initial_result routes)
    unfolding reconcile_with_result
    reconcile-refuses c routes w bad =
        let w1 : W = (client.context_err w).1 in
        let valid = prepare_routes-accepted_iff client context-live routes w1 in
        elim (Result-cases (prepare_routes client nothing_prepared routes w1).0) [
          | inl (p, prepared) ↦ absurd (cc (valid, prepared, bad))
          | inr (e, invalid) ↦ (
            λ fine. ground (arith, context-live w),
            ground (
              arith,
              context-live w,
              context-still w,
              prepare_routes-still nothing_prepared routes w1,
            ),
            ground (arith, context-live w),
          )
        ]
