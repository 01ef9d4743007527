-- ===== src/Runtime/Activate/Views.antt =====
-- About activations and a part of the world that only the persistence changes.
use pelican_mc_router.Prelude.{◌≡◌, refl, inl, inr, Option, none, some, arith, Result, Result-cases}
use pelican_mc_router.Text.{Text}
use pelican_mc_router.Router.Result.{ReconciliationResult}
use pelican_mc_router.Runtime.Status.{Outcome, Status}
use pelican_mc_router.Runtime.Build.{
  Environment, Settings, Scope, Synchronizer, absent, production, custom, build, build_for,
}
use pelican_mc_router.Runtime.Refresh.{fill_inventory, observe, record_history}

abbrev pub KeepsRun : {W S V : Type 0} → (W → V) → Synchronizer W S → Type 0
KeepsRun view absent = Unit {0}
KeepsRun {W = W} {S = S} view (production run) =
    (scope : Scope) (s : Option S) (w : W) → view (run scope s w).2 ≡ view w
KeepsRun {W = W} {S = S} view (custom run) =
    (scope : Scope) (s : Option S) (w : W) → view (run scope s w).2 ≡ view w

abbrev pub KeepsResolve :
    {W V : Type 0} → (W → V) → Option (Text → W → Result Text Text × W) → Type 0
KeepsResolve view none = Unit {0}
KeepsResolve {W = W} view (some resolve) = (name : Text) (w : W) → view (resolve name w).1 ≡ view w

abbrev pub KeepsObserve : {W V : Type 0} → (W → V) → Option (Status → W → W) → Type 0
KeepsObserve view none = Unit {0}
KeepsObserve {W = W} view (some tell) = (s : Status) (w : W) → view (tell s w) ≡ view w

abbrev pub KeepsRecord :
    {W V : Type 0} → (W → V) → Option (Outcome → ReconciliationResult → W → W) → Type 0
KeepsRecord view none = Unit {0}
KeepsRecord {W = W} view (some keep) =
    (o : Outcome) (r : ReconciliationResult) (w : W) → view (keep o r w) ≡ view w

-- The environment reads and calls, but does not change the view.
pub record Keeps {W S V : Type 0} (env : Environment W S) (view : W → V) : Type 0 where
  pub context_keeps : (w : W) → view (env.context_err w).1 ≡ view w
  pub acquire_keeps : (w : W) → view (env.acquire w).1 ≡ view w
  pub complete_keeps : (w : W) → view (env.is_setup_complete w).1 ≡ view w
  pub load_keeps : (w : W) → view (env.load w).1 ≡ view w
  pub resolve_keeps : KeepsResolve view env.resolve
  pub inventory_keeps : (s : S) (w : W) → view (env.refresh_inventory s w).1 ≡ view w
  pub run_keeps : KeepsRun view env.synchronizer
  pub observe_keeps : KeepsObserve view env.observe
  pub record_keeps : KeepsRecord view env.record_outcome

module _ {W S V : Type 0} (env : Environment W S) (view : W → V) (keeps : Keeps env view) where
  pub build_for-keeps : (value : Settings) (w : W) → view (build_for env value w).1 ≡ view w
  unfolding build_for
  build_for-keeps value w = go env.resolve refl keeps.resolve_keeps
    where
      go :
          (r : Option (Text → W → Result Text Text × W))
          → env.resolve ≡ r
          → KeepsResolve view r
          → view (build_for env value w).1 ≡ view w
      go none e k = ground arith
      go (some resolve) e k = ground (arith, k value.pelican_secret_name w)

  pub build-keeps : (w : W) → view (build env w).1 ≡ view w
  unfolding build
  build-keeps w =
      let w1 : W = (env.is_setup_complete w).1 in
      let w2 : W = (env.load w1).1 in
      elim (Result-cases (env.is_setup_complete w).0) [
        | inr (e, bad) ↦ ground (arith, keeps.complete_keeps w)
        | inl (complete, good) ↦ elim (Result-cases (env.load w1).0) [
          | inr (e, bad) ↦ ground (arith, keeps.complete_keeps w, keeps.load_keeps w1)
          | inl (value, read) ↦
              ground (arith, keeps.complete_keeps w, keeps.load_keeps w1, build_for-keeps value w2)
        ]
      ]

  pub fill_inventory-keeps : (s : S) (w : W) → view (fill_inventory env s w).1 ≡ view w
  unfolding fill_inventory
  fill_inventory-keeps s w = ground (arith, keeps.inventory_keeps s w)

  pub observe-keeps : (s : Status) (w : W) → view (observe env s w) ≡ view w
  unfolding observe
  observe-keeps s w = go env.observe refl keeps.observe_keeps
    where
      go :
          (o : Option (Status → W → W))
          → env.observe ≡ o
          → KeepsObserve view o
          → view (observe env s w) ≡ view w
      go none e k = ground arith
      go (some tell) e k = ground (arith, k s w)

  pub record_history-keeps : (s : Status) (w : W) → view (record_history env s w) ≡ view w
  unfolding record_history
  record_history-keeps s w = go env.record_outcome refl keeps.record_keeps s.last_outcome refl
    where
      go :
          (r : Option (Outcome → ReconciliationResult → W → W))
          → env.record_outcome ≡ r
          → KeepsRecord view r
          → (o : Option Outcome) → s.last_outcome ≡ o
          → view (record_history env s w) ≡ view w
      go none e k o h = ground arith
      go (some keep) e k none h = ground arith
      go (some keep) e k (some o) h = ground (arith, k o s.route_changes w)
