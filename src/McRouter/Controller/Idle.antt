-- ===== src/McRouter/Controller/Idle.antt =====
-- A reconciliation of routes that are in force already.
use pelican_mc_router.Prelude.{
  ◌≡◌, refl, Bool, true, false, Option, none, some, List, [], ◌∷◌, arith, contains, ==-self,
  Result-cases, inl, inr,
}
use pelican_mc_router.Prelude.Dict.{Dict, lookup, has}
use pelican_mc_router.Text.{Text, text_eq, Unicode}
use pelican_mc_router.Text.Sort.{sort_strings, contains-sort_strings}
use pelican_mc_router.Router.{Route}
use pelican_mc_router.Router.Result.{ReconciliationResult}
use pelican_mc_router.McRouter.Controller.{
  RouteClient, Controller, Prepared, nothing_prepared, rounds, create_round, backend_of, is_current,
  owns, stale_hostnames, apply_changes, prepare_routes, reconcile_with_result, initial_result,
}
use pelican_mc_router.McRouter.Controller.Server.{IsRouteServer}
use pelican_mc_router.McRouter.Controller.Prepare.{
  InLine, route_table, prepare_routes-lookup, prepare_routes-InLine, prepare_routes-keeps,
}
use pelican_mc_router.McRouter.Controller.Convergence.{
  settled, contains-stale, prepared_world, reconcile-settles,
}

nothing_contained : (l : List Text) → ((j : Text) → contains l j ≡ false) → l ≡ []
unfolding contains
nothing_contained [] h = refl
nothing_contained (a ∷ l) h = ground (arith, h a, ==-self a)

settled_twice :
    (owned : Bool) (wanted before : Option Text)
    → settled owned wanted (settled owned wanted before) ≡ settled owned wanted before
settled_twice owned (some b) before = refl
settled_twice true none before = refl
settled_twice false none before = refl

module _ {W : Type 0} (client : RouteClient W) (desired current : Dict Text Text) where
  create_rounds-idle :
      (hs : List Text) (r : ReconciliationResult) (w : W)
      → ((j : Text) → contains hs j ≡ true → is_current current j (backend_of desired j) ≡ true)
      → (rounds (create_round client desired current) hs r w).result ≡ r
  unfolding rounds create_round contains
  create_rounds-idle [] r w h = refl
  create_rounds-idle (k ∷ hs) r w h = ground (
    arith,
    h k,
    ==-self k,
    create_rounds-idle hs r (client.context_err w).1 (λ j m. h j (ground arith)),
  )

module _ ⦃u : Unicode⦄ {W : Type 0} (client : RouteClient W) (table : W → Text → Option Text)
    (server : IsRouteServer client table) where
  apply_changes-idle :
      (c : Controller) (p : Prepared) (current : Dict Text Text) (r : ReconciliationResult) (w : W)
      → InLine p
      → ((j : Text)
          → settled (owns c j) (lookup j p.backends) (lookup j current) ≡ lookup j current)
      → (apply_changes client c p current r w).result ≡ r
  unfolding apply_changes
  apply_changes-idle c p current r w line same =
      let none_stale : stale_hostnames c p.backends current ≡ [] =
        nothing_contained (stale_hostnames c p.backends current) (λ j.
          unfold has in
          ground (arith, same j, contains-stale client table server c p.backends current j)) in
      let idle = create_rounds-idle client p.backends current (sort_strings p.hostnames) r w (λ j m.
        unfold has is_current in
        ground (
          arith,
          m,
          same j,
          line j,
          contains-sort_strings p.hostnames j,
          ==-self (backend_of p.backends j),
        )) in
      unfold rounds in ground (arith, none_stale, idle)

  module _ (c : Controller) (routes : List Route) (w : W) where
    -- If every name is settled already, a reconciliation counts no change, whether it ends in an
    -- error or not.
    pub reconcile-idle :
        ((j : Text) → settled (owns c j) (lookup j (route_table routes)) (table w j) ≡ table w j)
        → (reconcile_with_result client c routes w).result ≡ initial_result routes
    unfolding reconcile_with_result
    reconcile-idle same =
        let w1 : W = (client.context_err w).1 in
        let w2 : W = prepared_world client table server c routes w in
        elim (Result-cases (prepare_routes client nothing_prepared routes w1).0) [
          | inr (e, invalid) ↦ ground arith
          | inl (p, prepared) ↦ elim (Result-cases (client.list_routes w2).0) [
            | inr (e, unlisted) ↦ ground arith
            | inl (current, listed) ↦
                let idle =
                  apply_changes-idle c p current (initial_result routes) (client.list_routes w2).1
                    (prepare_routes-InLine client routes w1 prepared)
                    (λ j. cc (
                      same j,
                      server.list_reads w2 current listed j,
                      prepare_routes-lookup client routes w1 j prepared,
                      server.context_keeps w j,
                      prepare_routes-keeps client table server nothing_prepared routes w1 j,
                    )) in
                ground arith
          ]
        ]

  module _ (c : Controller) (routes : List Route) (w : W) where
    -- A second reconciliation, after one without error, changes nothing.
    pub reconcile-again :
        (reconcile_with_result client c routes w).error ≡ none
        → (reconcile_with_result client c routes
            (reconcile_with_result client c routes w).world).result
          ≡ initial_result routes
    reconcile-again fine =
        let next : W = (reconcile_with_result client c routes w).world in
        reconcile-idle c routes next (λ j. cc (
          reconcile-settles client table server c routes w fine j,
          settled_twice (owns c j) (lookup j (route_table routes)) (table w j),
        ))
