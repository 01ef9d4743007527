-- ===== src/Runtime/Activate/Persisted.antt =====
-- About activations and a part of the world that only the persistence changes: how it ends.
use pelican_mc_router.Prelude.{
  ◌≡◌, ◌≢◌, refl, ◌∙◌, inl, inr, Option, none, some, [], arith, Result, ok, err, Result-cases,
  Option-cases,
}
use pelican_mc_router.Text.{Text, text}
use pelican_mc_router.Router.Result.{ReconciliationResult, no_result}
use pelican_mc_router.Runtime.Status.{Outcome, success, failure, Status}
use pelican_mc_router.Runtime.Build.{
  Environment, Settings, Scope, Synchronize, Synchronizer, absent, production, custom, request,
  cleanup, build, build_for,
}
use pelican_mc_router.Runtime.Refresh.{
  Task, RefreshError, begin_tracking, finish, fill_inventory, observe,
}
use pelican_mc_router.Runtime.Activate.{
  ActivateError, Activated, compensate, activate_with, activate_alone, activate_built,
  activate_locked, activate_and_track, synchronize_candidate, context_done, persist_candidate,
}
use pelican_mc_router.Runtime.Activate.Laws.{compensate-fails}
use pelican_mc_router.Runtime.Activate.Views.{
  Keeps, KeepsRun, build_for-keeps, build-keeps, fill_inventory-keeps, observe-keeps,
  record_history-keeps,
}

module _ {W S V : Type 0} (env : Environment W S) (view : W → V) (keeps : Keeps env view)
    (persist : W → Result Text (Unit {0}) × W)
    (undone : (w : W) (e : Text) → (persist w).0 ≡ err e → view (persist w).1 ≡ view w) where
  -- An error leaves the view, and without one it is what one successful persistence made of it.
  abbrev pub IsPersisted : W → Option ActivateError → W → Type 0
  IsPersisted w error w' =
      (error ≢ none → view w' ≡ view w)
      × (error ≡ none
          → (v : W) × (view v ≡ view w) × ((persist v).0 ≡ ok tt) × (view w' ≡ view (persist v).1))

  module _ (run : Synchronize W S)
      (run_keeps : (scope : Scope) (s : Option S) (w : W) → view (run scope s w).2 ≡ view w) where
    compensate-keeps :
        (previous : Option S) (r : ReconciliationResult) (e : ActivateError) (w : W)
        → view (compensate env persist run previous r e w).world ≡ view w
    unfolding compensate
    compensate-keeps (some s) r e w = run_keeps cleanup (some s) w
    compensate-keeps none r e w =
        let w1 : W = (build env w).1 in
        elim (Result-cases (build env w).0) [
          | inr (b, bad) ↦ ground (arith, build-keeps env view keeps w)
          | inl (stored, built) ↦
              ground (arith, build-keeps env view keeps w, run_keeps cleanup stored w1)
        ]

    compensated :
        (previous : Option S) (r : ReconciliationResult) (e : ActivateError) (w w' : W)
        → view w' ≡ view w
        → IsPersisted w
            (compensate env persist run previous r e w').error
            (compensate env persist run previous r e w').world
    compensated previous r e w w' same = (
      λ failed. compensate-keeps previous r e w' ∙ same,
      λ fine. absurd (cc (fine, (compensate-fails env persist run previous r e w').0)),
    )

    activate_with-IsPersisted :
        (previous : Option S) (s : S) (w : W)
        → IsPersisted w
            (activate_with env persist run previous s w).error
            (activate_with env persist run previous s w).world
    unfolding activate_with
    activate_with-IsPersisted previous s w =
        let r : ReconciliationResult = (run request (some s) w).0 in
        let w1 : W = (run request (some s) w).2 in
        let w2 : W = (env.context_err w1).1 in
        let same1 : view w1 ≡ view w = run_keeps request (some s) w in
        let same2 : view w2 ≡ view w = keeps.context_keeps w1 ∙ same1 in
        elim (Option-cases (run request (some s) w).1) [
          | inr (e, bad) ↦
              rw (bad, activate_with) (compensated previous r (synchronize_candidate e) w w1 same1)
          | inl synced ↦ elim (Result-cases (env.context_err w1).0) [
            | inr (e, bad) ↦
                rw (synced, bad, activate_with) (compensated previous r (context_done e) w w2 same2)
            | inl (_, live) ↦ elim (Result-cases (persist w2).0) [
              | inr (e, bad) ↦
                  rw (synced, live, bad, activate_with)
                    (compensated previous r (persist_candidate e) w (persist w2).1
                      (undone w2 e bad ∙ same2))
              | inl (_, kept) ↦
                  rw (synced, live, kept, activate_with)
                    (λ failed. absurd (failed refl), λ fine. (w2, same2, kept, refl))
            ]
          ]
        ]

  activate_alone-IsPersisted :
      (previous : Option S) (s : S) (w : W)
      → IsPersisted w
          (activate_alone env persist previous s w).error
          (activate_alone env persist previous s w).world
  unfolding activate_alone
  activate_alone-IsPersisted previous s w =
      let w1 : W = (env.context_err w).1 in
      elim (Result-cases (env.context_err w).0) [
        | inr (e, bad) ↦ rw (bad, activate_alone) (λ failed. keeps.context_keeps w, λ fine. cc)
        | inl (_, live) ↦ elim (Result-cases (persist w1).0) [
          | inr (e, bad) ↦
              rw (live, bad, activate_alone)
                (λ failed. undone w1 e bad ∙ keeps.context_keeps w, λ fine. cc)
          | inl (_, kept) ↦
              rw (live, kept, activate_alone)
                (λ failed. absurd (failed refl), λ fine. (w1, keeps.context_keeps w, kept, refl))
        ]
      ]

  activate_built-IsPersisted :
      (sync : Synchronizer W S)
      → KeepsRun view sync
      → (previous : Option S) (s : S) (w : W)
      → IsPersisted w
          (activate_built env persist sync previous s w).error
          (activate_built env persist sync previous s w).world
  unfolding activate_built
  activate_built-IsPersisted absent k = activate_alone-IsPersisted
  activate_built-IsPersisted (production run) k = activate_with-IsPersisted run k
  activate_built-IsPersisted (custom run) k = activate_with-IsPersisted run k

  -- From a world on that has the same view.
  from :
      (w u : W) (e : Option ActivateError) (w' : W)
      → view u ≡ view w
      → IsPersisted u e w'
      → IsPersisted w e w'
  from w u e w' same (failing, persisting) = (
    λ failed. failing failed ∙ same,
    λ fine. let (v, sees, kept, left) = persisting fine in (v, sees ∙ same, kept, left),
  )

  activate_locked-IsPersisted :
      (value : Settings) (previous : Option S) (w : W)
      → IsPersisted w
          (activate_locked env persist value previous w).error
          (activate_locked env persist value previous w).world
  unfolding activate_locked
  activate_locked-IsPersisted value previous w =
      let w1 : W = (build_for env value w).1 in
      let same1 : view w1 ≡ view w = build_for-keeps env view keeps value w in
      elim (Result-cases (build_for env value w).0) [
        | inr (e, bad) ↦ rw (bad, activate_locked) (λ failed. same1, λ fine. cc)
        | inl (s, built) ↦
            let w2 : W = (fill_inventory env s w1).1 in
            let same2 : view w2 ≡ view w = fill_inventory-keeps env view keeps s w1 ∙ same1 in
            elim (Result-cases (fill_inventory env s w1).0) [
              | inr (e, bad) ↦ rw (built, bad, activate_locked) (λ failed. same2, λ fine. cc)
              | inl (_, filled) ↦
                  let a = activate_built env persist env.synchronizer previous s w2 in
                  rw (built, filled, activate_locked)
                    (from w w2 a.error a.world same2
                      (activate_built-IsPersisted env.synchronizer keeps.run_keeps previous s w2))
            ]
      ]

  finish-keeps :
      (o : Outcome) (summary : Text) (r : ReconciliationResult) (task : Task S)
      (e : Option RefreshError) (w : W)
      → view (finish env o summary r task e w).world ≡ view w
  unfolding finish
  finish-keeps o summary r task e w =
      let s : Status = (finish env o summary r task e w).task.status in
      record_history-keeps env view keeps s (observe env s w) ∙ observe-keeps env view keeps s w

  pub activate_and_track-IsPersisted :
      (value : Settings) (task : Task S) (w : W)
      → IsPersisted w
          (activate_and_track env persist value task w).error
          (activate_and_track env persist value task w).world
  unfolding activate_and_track begin_tracking
  activate_and_track-IsPersisted value task w =
      let t : Task S = (begin_tracking env task w).0 in
      let w1 : W = (begin_tracking env task w).1 in
      let b : Activated W S = activate_locked env persist value task.published w1 in
      let held : Task S = record t { published = b.published } in
      let started : view w1 ≡ view w = observe-keeps env view keeps t.status w in
      let settled : IsPersisted w b.error b.world =
        from w w1 b.error b.world started (activate_locked-IsPersisted value task.published w1) in
      elim (Option-cases b.error) [
        | inr (e, bad) ↦
            rw (bad, activate_and_track)
              (
                λ failed.
                    finish-keeps failure (text "runtime build failed") no_result held none b.world
                    ∙ settled.0 (λ fine. cc),
                λ fine. cc,
              )
        | inl fine ↦
            rw (fine, activate_and_track)
              (
                λ failed. absurd (failed refl),
                λ _.
                    let (v, sees, kept, left) = settled.1 fine in
                    (v, sees, kept, finish-keeps success [] b.result held none b.world ∙ left),
              )
      ]
