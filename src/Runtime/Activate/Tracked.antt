-- ===== src/Runtime/Activate/Tracked.antt =====
-- Activations as a whole: the lock, the tracker and the published runtime.
use pelican_mc_router.Prelude.{◌≡◌, ◌≢◌, false, none, some, arith, Result, ok, err}
use pelican_mc_router.Text.{Text}
use pelican_mc_router.Runtime.Status.{success, failure}
use pelican_mc_router.Runtime.Build.{Environment, Settings}
use pelican_mc_router.Runtime.Refresh.{Task, begin_tracking, finish}
use pelican_mc_router.Runtime.Activate.{Activation, activate_and_track, activate, activate_setup}
use pelican_mc_router.Runtime.Activate.Laws.{activate_locked-keeps}

module _ {W S : Type 0} (env : Environment W S) (value : Settings) (task : Task S) where
  -- What an activation leaves where it returns an error, and where it returns none.
  abbrev pub IsTracked : Activation W S → Type 0
  IsTracked a =
      (a.error ≢ none
        → (a.task.published ≡ task.published) × (a.task.status.last_outcome ≡ some failure))
      × (a.error ≡ none → a.task.status.last_outcome ≡ some success)
      × (a.task.status.in_progress ≡ false)

  pub activate_and_track-IsTracked :
      (persist : W → Result Text (Unit {0}) × W) (w : W)
      → IsTracked (activate_and_track env persist value task w)
  unfolding activate_and_track begin_tracking finish
  activate_and_track-IsTracked persist w =
      let w1 : W = (begin_tracking env task w).1 in
      let keeps = activate_locked-keeps env persist value task.published w1 in
      (λ failed. (ground arith, ground arith), λ fine. ground arith, ground arith)

  -- Once the lock is taken, an activation ends with the tracker idle: with an error it is tracked
  -- as a failure and leaves the published runtime as it was, and without one as a success.
  pub activate-IsTracked :
      (persist : W → Result Text (Unit {0}) × W) (w : W)
      → (env.acquire w).0 ≡ ok tt
      → IsTracked (activate env persist value task w)
  unfolding activate
  activate-IsTracked persist w taken =
      ground (arith, activate_and_track-IsTracked persist (env.acquire w).1)

  -- A setup whose candidate cannot be staged never starts a synchronization: the runtime and the
  -- tracker stay as they were, and any promotion would have given the same result.
  pub activate_setup-unstaged :
      (stage : W → Result Text Text × W) (promote other : Text → W → Result Text (Unit {0}) × W)
      (w : W) (e : Text)
      → (env.acquire w).0 ≡ ok tt
      → (stage (env.acquire w).1).0 ≡ err e
      → (activate_setup env stage promote value task w
          ≡ activate_setup env stage other value task w)
        × ((activate_setup env stage promote value task w).task ≡ task)
        × ((activate_setup env stage promote value task w).error ≢ none)
  unfolding activate_setup
  activate_setup-unstaged stage promote other w e taken refused =
      (ground arith, ground arith, λ fine. ground arith)

  -- A setup whose candidate is staged promotes the generation that was staged, and is tracked.
  pub activate_setup-staged :
      (stage : W → Result Text Text × W) (promote : Text → W → Result Text (Unit {0}) × W) (w : W)
      (generation : Text)
      → (env.acquire w).0 ≡ ok tt
      → (stage (env.acquire w).1).0 ≡ ok generation
      → IsTracked (activate_setup env stage promote value task w)
  unfolding activate_setup
  activate_setup-staged stage promote w generation taken staged =
      ground (arith, activate_and_track-IsTracked (promote generation) (stage (env.acquire w).1).1)
