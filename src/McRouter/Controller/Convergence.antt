-- ===== src/McRouter/Controller/Convergence.antt =====
-- What one reconciliation makes of the routes of the server, and what it never touches.
use pelican_mc_router.Prelude.{
  ◌≡◌, refl, sym, ◌∙◌, Bool, true, false, not, ◌&&◌, Option, none, some, List, [], ◌∷◌, arith,
  contains, select, ok, Option-cases, Result-cases, inl, inr,
}
use pelican_mc_router.Prelude.Dict.{Dict, lookup, has, keys, contains-keys}
use pelican_mc_router.Text.{Text, text_eq, Unicode}
use pelican_mc_router.Text.Sort.{sort_strings, contains-sort_strings}
use pelican_mc_router.Router.{Route}
use pelican_mc_router.Router.Result.{ReconciliationResult}
use pelican_mc_router.McRouter.Controller.{
  RouteClient, Controller, initial_result, Prepared, nothing_prepared, Done, rounds, create_round,
  delete_round, owns, stale_hostnames, apply_changes, prepare_routes, reconcile_with_result,
}
use pelican_mc_router.McRouter.Controller.Server.{IsRouteServer}
use pelican_mc_router.McRouter.Controller.Prepare.{
  InLine, route_table, prepare_routes-lookup, prepare_routes-InLine, prepare_routes-keeps,
}
use pelican_mc_router.McRouter.Controller.Loops.{
  rounds-keeps, create_round-keeps, delete_round-keeps, create_rounds-table, delete_rounds-table,
}

contains-select :
    (p : Text → Bool) (l : List Text) (j : Text) → contains (select p l) j ≡ (contains l j && p j)
unfolding contains select
contains-select p [] j = refl
contains-select p (a ∷ l) j = ground (arith, contains-select p l j)

-- The backend that a name is to have after a reconciliation: the desired one; none for other
-- names of the managed domain; and what it had for the names that are not managed.
abbrev pub settled : Bool → Option Text → Option Text → Option Text
settled owned (some b) before = some b
settled true none before = none
settled false none before = before

module _ ⦃u : Unicode⦄ {W : Type 0} (client : RouteClient W) (table : W → Text → Option Text)
    (server : IsRouteServer client table) where
  -- The loop that creates and updates.
  abbrev create_all : Prepared → Dict Text Text → ReconciliationResult → W → Done W
  create_all p current r w =
      rounds (create_round client p.backends current) (sort_strings p.hostnames) r w

  pub contains-stale :
      (c : Controller) (desired current : Dict Text Text) (j : Text)
      → contains (stale_hostnames c desired current) j
        ≡ (has j current && (owns c j && not (has j desired)))
  unfolding stale_hostnames
  contains-stale c desired current j =
      rw
        (
          contains-sort_strings (select (λ h. owns c h && not (has h desired)) (keys current)) j,
          contains-select (λ h. owns c h && not (has h desired)) (keys current) j,
          contains-keys j current,
        )
        refl

  apply_changes-keeps :
      (c : Controller) (p : Prepared) (current : Dict Text Text) (r : ReconciliationResult) (w : W)
      (j : Text)
      → InLine p
      → owns c j ≡ false
      → has j p.backends ≡ false
      → table (apply_changes client c p current r w).world j ≡ table w j
  unfolding apply_changes
  apply_changes-keeps c p current r w j line foreign unwanted =
      let d : Done W = create_all p current r w in
      ground (
        arith,
        line j,
        contains-sort_strings p.hostnames j,
        contains-stale c p.backends current j,
        rounds-keeps table (create_round client p.backends current)
            (create_round-keeps client table server p.backends current) (sort_strings p.hostnames) r
            w j,
        rounds-keeps table (delete_round client) (delete_round-keeps client table server)
            (stale_hostnames c p.backends current) d.result d.world j,
      )

  apply_changes-fine :
      (c : Controller) (p : Prepared) (current : Dict Text Text) (r : ReconciliationResult) (w : W)
      → (apply_changes client c p current r w).error ≡ none
      → ((create_all p current r w).error ≡ none)
        × (apply_changes client c p current r w
            ≡ rounds
                (delete_round client)
                (stale_hostnames c p.backends current)
                (create_all p current r w).result
                (create_all p current r w).world)
  unfolding apply_changes
  apply_changes-fine c p current r w fine = elim (Option-cases (create_all p current r w).error) [
    | inl went ↦ (went, rw (went, apply_changes))
    | inr (e, failed) ↦ cc (rw (failed, apply_changes) at fine, failed)
  ]

  apply_changes-settled :
      (c : Controller) (p : Prepared) (current : Dict Text Text) (r : ReconciliationResult) (w : W)
      → InLine p
      → ((j : Text) → lookup j current ≡ table w j)
      → (apply_changes client c p current r w).error ≡ none
      → (j : Text)
      → table (apply_changes client c p current r w).world j
        ≡ settled (owns c j) (lookup j p.backends) (table w j)
  unfolding has
  apply_changes-settled c p current r w line reads fine j =
      let d : Done W = create_all p current r w in
      let (went, same) = apply_changes-fine c p current r w fine in
      rw same (
        ground (
          arith,
          line j,
          reads j,
          contains-sort_strings p.hostnames j,
          contains-stale c p.backends current j,
          create_rounds-table client table server p.backends current (sort_strings p.hostnames) r w
              (λ k h. sym (reads k) ∙ h) went j,
          delete_rounds-table client table server (stale_hostnames c p.backends current) d.result
              d.world (rw same at fine) j,
        ))

  module _ (c : Controller) (routes : List Route) (w : W) where
    -- Whatever fails, and wherever: a name that is neither asked for nor of the managed domain is
    -- routed as before.
    pub reconcile-keeps_foreign :
        (j : Text)
        → owns c j ≡ false
        → lookup j (route_table routes) ≡ none
        → table (reconcile_with_result client c routes w).world j ≡ table w j
    unfolding reconcile_with_result has
    reconcile-keeps_foreign j foreign unwanted =
        let w1 : W = (client.context_err w).1 in
        let w2 : W = (prepare_routes client nothing_prepared routes w1).1 in
        let w3 : W = (client.list_routes w2).1 in
        elim (Result-cases (prepare_routes client nothing_prepared routes w1).0) [
          | inr (e, invalid) ↦ ground (
            arith,
            server.context_keeps w j,
            prepare_routes-keeps client table server nothing_prepared routes w1 j,
          )
          | inl (p, prepared) ↦ elim (Result-cases (client.list_routes w2).0) [
            | inr (e, unlisted) ↦ ground (
              arith,
              server.context_keeps w j,
              server.list_keeps w2 j,
              prepare_routes-keeps client table server nothing_prepared routes w1 j,
            )
            | inl (current, listed) ↦ ground (
              arith,
              server.context_keeps w j,
              server.list_keeps w2 j,
              prepare_routes-keeps client table server nothing_prepared routes w1 j,
              prepare_routes-lookup client routes w1 j prepared,
              apply_changes-keeps c p current (initial_result routes) w3 j
                  (prepare_routes-InLine client routes w1 prepared) foreign,
            )
          ]
        ]

    -- A reconciliation without error prepared its routes, read the current ones, and applied the
    -- changes.
    abbrev pub prepared_world : W
    prepared_world = (prepare_routes client nothing_prepared routes (client.context_err w).1).1

    pub reconcile-fine :
        (reconcile_with_result client c routes w).error ≡ none
        → (p : Prepared) × (current : Dict Text Text) × ((prepare_routes client nothing_prepared
              routes
              (client.context_err w).1).0
            ≡ ok p)
          × ((client.list_routes prepared_world).0 ≡ ok current)
          × (reconcile_with_result client c routes w
              ≡ apply_changes client c p current
                  (initial_result routes)
                  (client.list_routes prepared_world).1)
    unfolding reconcile_with_result
    reconcile-fine fine = ground arith

    -- A reconciliation without error settles every name: it has the desired backend if the routes
    -- ask for it, no backend if it is another name of the managed domain, and else what it had.
    pub reconcile-settles :
        (reconcile_with_result client c routes w).error ≡ none
        → (j : Text)
        → table (reconcile_with_result client c routes w).world j
          ≡ settled (owns c j) (lookup j (route_table routes)) (table w j)
    reconcile-settles fine j =
        let (p, current, prepared, listed, same) = reconcile-fine fine in
        let w1 : W = (client.context_err w).1 in
        let w3 : W = (client.list_routes prepared_world).1 in
        let reads : (k : Text) → lookup k current ≡ table w3 k = λ k.
          server.list_reads prepared_world current listed k
          ∙ sym (server.list_keeps prepared_world k) in
        let done =
          apply_changes-settled c p current (initial_result routes) w3
            (prepare_routes-InLine client routes w1 prepared) reads (rw same at fine) j in
        rw same (
          cc (
            done,
            prepare_routes-lookup client routes w1 j prepared,
            server.context_keeps w j,
            prepare_routes-keeps client table server nothing_prepared routes w1 j,
            server.list_keeps prepared_world j,
          ))
