-- ===== src/Runtime/Activate/Staged.antt =====
-- About `ActivateSetup` and a part of the world that only staging and promotion change.
use pelican_mc_router.Prelude.{
  ◌≡◌, ◌≢◌, ◌⊎◌, refl, ◌∙◌, inl, inr, Option, none, Result, ok, err, Result-cases,
}
use pelican_mc_router.Text.{Text}
use pelican_mc_router.Runtime.Build.{Environment, Settings}
use pelican_mc_router.Runtime.Refresh.{Task}
use pelican_mc_router.Runtime.Activate.{ActivateError, activate, activate_setup}
use pelican_mc_router.Runtime.Activate.Views.{Keeps}
use pelican_mc_router.Runtime.Activate.Persisted.{IsPersisted, activate_and_track-IsPersisted}

module _ {W S V : Type 0} (env : Environment W S) (view : W → V) (keeps : Keeps env view) where
  -- An activation changes a part of the world that the environment keeps only by one successful
  -- persistence, and with an error not at all, if a persistence that fails does not change it.
  pub activate-IsPersisted :
      (persist : W → Result Text (Unit {0}) × W)
      (undone : (w : W) (e : Text) → (persist w).0 ≡ err e → view (persist w).1 ≡ view w)
      (value : Settings) (task : Task S) (w : W)
      → IsPersisted env view keeps persist undone w
          (activate env persist value task w).error
          (activate env persist value task w).world
  unfolding activate
  activate-IsPersisted persist undone value task w =
      let w1 : W = (env.acquire w).1 in
      let same : view w1 ≡ view w = keeps.acquire_keeps w in
      elim (Result-cases (env.acquire w).0) [
        | inr (e, bad) ↦ rw (bad, activate) (λ failed. same, λ fine. cc)
        | inl (_, taken) ↦
            let (failing, persisting) =
              activate_and_track-IsPersisted env view keeps persist undone value task w1 in
            rw (taken, activate)
              (
                λ failed. failing failed ∙ same,
                λ fine. let (v, sees, kept, left) = persisting fine in (v, sees ∙ same, kept, left),
              )
      ]

  module _ (stage : W → Result Text Text × W) (promote : Text → W → Result Text (Unit {0}) × W)
      (undone : (g : Text) (w : W) (e : Text)
        → (promote g w).0 ≡ err e
        → view (promote g w).1 ≡ view w) where
    -- How a setup that began at `w` ended: with an error nothing but a staging has changed the view;
    -- without one, the generation that was staged was promoted, and nothing happened in between.
    abbrev pub IsStaged : W → Option ActivateError → W → Type 0
    IsStaged w error w' =
        (error ≢ none
          → (view w' ≡ view w) ⊎ ((u : W) × (view u ≡ view w) × (view w' ≡ view (stage u).1)))
        × (error ≡ none
            → (u : W) × (g : Text) × (v : W) × (view u ≡ view w)
              × ((stage u).0 ≡ ok g)
              × (view v ≡ view (stage u).1)
              × ((promote g v).0 ≡ ok tt)
              × (view w' ≡ view (promote g v).1))

    pub activate_setup-IsStaged :
        (value : Settings) (task : Task S) (w : W)
        → IsStaged w
            (activate_setup env stage promote value task w).error
            (activate_setup env stage promote value task w).world
    unfolding activate_setup
    activate_setup-IsStaged value task w =
        let w1 : W = (env.acquire w).1 in
        let w2 : W = (stage w1).1 in
        let same : view w1 ≡ view w = keeps.acquire_keeps w in
        elim (Result-cases (env.acquire w).0) [
          | inr (e, bad) ↦ rw (bad, activate_setup) (λ failed. inl same, λ fine. cc)
          | inl (_, taken) ↦ elim (Result-cases (stage w1).0) [
            | inr (e, bad) ↦
                rw (taken, bad, activate_setup) (λ failed. inr (w1, same, refl), λ fine. cc)
            | inl (g, staged) ↦
                let (failing, persisting) =
                  activate_and_track-IsPersisted env view keeps (promote g) (undone g) value task
                    w2 in
                rw (taken, staged, activate_setup)
                  (
                    λ failed. inr (w1, same, failing failed),
                    λ fine.
                        let (v, sees, kept, left) = persisting fine in
                        (w1, g, v, same, staged, sees, kept, left),
                  )
          ]
        ]
