-- ===== src/Runtime/Activate/Laws.antt =====
-- About `activateLocked` of backend/internal/runtime/refresh_task.go: publication and compensation.
use pelican_mc_router.Prelude.{
  ◌≡◌, ◌≢◌, ◌⊎◌, refl, inl, inr, Option, none, some, arith, Result, ok, Result-cases, Option-cases,
}
use pelican_mc_router.Text.{Text}
use pelican_mc_router.Router.Result.{ReconciliationResult}
use pelican_mc_router.Runtime.Build.{
  Environment, Settings, Synchronize, Synchronizer, absent, production, custom, request, cleanup,
  build_for,
}
use pelican_mc_router.Runtime.Refresh.{fill_inventory}
use pelican_mc_router.Runtime.Activate.{
  ActivateError, compensate, activate_with, activate_alone, activate_built, activate_locked,
  synchronize_candidate, context_done, persist_candidate, published_now,
}

module _ {W S : Type 0} (env : Environment W S) (persist : W → Result Text (Unit {0}) × W) where
  pub compensate-fails :
      (run : Synchronize W S) (previous : Option S) (r : ReconciliationResult) (e : ActivateError)
      (w : W)
      → ((compensate env persist run previous r e w).error ≡ some e)
        × ((compensate env persist run previous r e w).published ≡ previous)
  unfolding compensate
  compensate-fails run none r e w = ground arith
  compensate-fails run (some s) r e w = ground arith

  compensate-restores :
      (run : Synchronize W S) (old : S) (r : ReconciliationResult) (e : ActivateError) (w : W)
      → (compensate env persist run (some old) r e w).world ≡ (run cleanup (some old) w).2
  unfolding compensate
  compensate-restores run old r e w = refl

  module _ (run : Synchronize W S) (previous : Option S) (s : S) (w : W) where
    abbrev synced : W
    synced = (run request (some s) w).2

    abbrev checked : W
    checked = (env.context_err synced).1

    -- All three steps succeed, or the compensation has the last word.
    activate_with-cases :
        (((run request (some s) w).1 ≡ none)
          × ((env.context_err synced).0 ≡ ok tt)
          × ((persist checked).0 ≡ ok tt)
          × (activate_with env persist run previous s w
              ≡ published_now env persist s (run request (some s) w).0 (persist checked).1))
        ⊎ ((e : ActivateError) × (w' : W) × (activate_with env persist run previous s w
              ≡ compensate env persist run previous (run request (some s) w).0 e w'))
    unfolding activate_with
    activate_with-cases = elim (Option-cases (run request (some s) w).1) [
      | inr (e, failed) ↦ inr (synchronize_candidate e, synced, rw (failed, activate_with))
      | inl fine ↦ elim (Result-cases (env.context_err synced).0) [
        | inr (e, ended) ↦ inr (context_done e, checked, ground arith)
        | inl (_, live) ↦ elim (Result-cases (persist checked).0) [
          | inr (e, lost) ↦ inr (persist_candidate e, (persist checked).1, ground arith)
          | inl (_, kept) ↦ inl (fine, ground arith, ground arith, ground arith)
        ]
      ]
    ]

    activate_with-keeps :
        (activate_with env persist run previous s w).error ≢ none
        → (activate_with env persist run previous s w).published ≡ previous
    activate_with-keeps failed = elim activate_with-cases [
      | inl (_, _, _, done) ↦ absurd (failed (rw done))
      | inr (e, w', undone) ↦
          rw undone (compensate-fails run previous (run request (some s) w).0 e w').1
    ]

    activate_with-fine :
        (activate_with env persist run previous s w).error ≡ none
        → ((run request (some s) w).1 ≡ none)
          × ((persist checked).0 ≡ ok tt)
          × ((activate_with env persist run previous s w).published ≡ some s)
    activate_with-fine fine = elim activate_with-cases [
      | inl (synchronized, _, kept, done) ↦ (synchronized, kept, rw done)
      | inr (e, w', undone) ↦
          absurd
            (cc (fine, undone, (compensate-fails run previous (run request (some s) w).0 e w').0))
    ]

  -- If anything fails once the candidate was handed to the synchronizer, the last thing that happens
  -- is that the previously published runtime is synchronized again.
  pub activate_with-restores :
      (run : Synchronize W S) (old s : S) (w : W)
      → (activate_with env persist run (some old) s w).error ≢ none
      → (w' : W) × ((activate_with env persist run (some old) s w).world
          ≡ (run cleanup (some old) w').2)
  activate_with-restores run old s w failed = elim (activate_with-cases run (some old) s w) [
    | inl (_, _, _, done) ↦ absurd (failed (rw done))
    | inr (e, w', undone) ↦
        (w', rw undone (compensate-restores run old (run request (some s) w).0 e w'))
  ]

  activate_alone-keeps :
      (previous : Option S) (s : S) (w : W)
      → (activate_alone env persist previous s w).error ≢ none
      → (activate_alone env persist previous s w).published ≡ previous
  unfolding activate_alone
  activate_alone-keeps previous s w failed = ground arith

  activate_built-keeps :
      (sync : Synchronizer W S) (previous : Option S) (s : S) (w : W)
      → (activate_built env persist sync previous s w).error ≢ none
      → (activate_built env persist sync previous s w).published ≡ previous
  unfolding activate_built
  activate_built-keeps absent = activate_alone-keeps
  activate_built-keeps (production run) = activate_with-keeps run
  activate_built-keeps (custom run) = activate_with-keeps run

  -- The candidate is published, and the last step was to persist it.
  abbrev pub IsPublished : Option S → S → W → Type 0
  IsPublished published s w =
      (published ≡ some s) × ((v : W) × ((persist v).0 ≡ ok tt) × (w ≡ (persist v).1))

  activate_alone-publishes :
      (previous : Option S) (s : S) (w : W)
      → (activate_alone env persist previous s w).error ≡ none
      → IsPublished
          (activate_alone env persist previous s w).published
          s
          (activate_alone env persist previous s w).world
  unfolding activate_alone
  activate_alone-publishes previous s w fine =
      (ground arith, ((env.context_err w).1, ground arith, ground arith))

  activate_with-publishes :
      (run : Synchronize W S) (previous : Option S) (s : S) (w : W)
      → (activate_with env persist run previous s w).error ≡ none
      → IsPublished
          (activate_with env persist run previous s w).published
          s
          (activate_with env persist run previous s w).world
  activate_with-publishes run previous s w fine = elim (activate_with-cases run previous s w) [
    | inl (synchronized, _, kept, done) ↦ rw done (refl, (checked run previous s w, kept, refl))
    | inr (e, w', undone) ↦
        absurd
          (cc (fine, undone, (compensate-fails run previous (run request (some s) w).0 e w').0))
  ]

  activate_built-publishes :
      (sync : Synchronizer W S) (previous : Option S) (s : S) (w : W)
      → (activate_built env persist sync previous s w).error ≡ none
      → IsPublished
          (activate_built env persist sync previous s w).published
          s
          (activate_built env persist sync previous s w).world
  unfolding activate_built
  activate_built-publishes absent = activate_alone-publishes
  activate_built-publishes (production run) = activate_with-publishes run
  activate_built-publishes (custom run) = activate_with-publishes run

  module _ (value : Settings) (previous : Option S) (w : W) where
    pub activate_locked-keeps :
        (activate_locked env persist value previous w).error ≢ none
        → (activate_locked env persist value previous w).published ≡ previous
    unfolding activate_locked
    activate_locked-keeps failed = elim (Result-cases (build_for env value w).0) [
      | inr (e, unbuilt) ↦ ground arith
      | inl (s, built) ↦ ground (
        arith,
        activate_built-keeps env.synchronizer previous s
            (fill_inventory env s (build_for env value w).1).1,
      )
    ]

    -- An activation without error publishes the services built from the candidate settings, after
    -- the candidate was persisted, and does nothing else after that.
    pub activate_locked-publishes :
        (activate_locked env persist value previous w).error ≡ none
        → (s : S) × ((build_for env value w).0 ≡ ok s)
          × IsPublished
              (activate_locked env persist value previous w).published
              s
              (activate_locked env persist value previous w).world
    unfolding activate_locked
    activate_locked-publishes fine = elim (Result-cases (build_for env value w).0) [
      | inr (e, unbuilt) ↦ absurd (ground arith)
      | inl (s, built) ↦
          let w1 : W = (build_for env value w).1 in
          let w2 : W = (fill_inventory env s w1).1 in
          elim (Result-cases (fill_inventory env s w1).0) [
            | inr (e, unfilled) ↦ absurd (ground arith)
            | inl (_, filled) ↦ (
              s,
              built,
              rw (built, filled, activate_locked)
                  (activate_built-publishes env.synchronizer previous s w2
                    (rw (built, filled, activate_locked) at fine)),
            )
          ]
    ]
