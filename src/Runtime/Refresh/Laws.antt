-- ===== src/Runtime/Refresh/Laws.antt =====
-- About `Refresh` of backend/internal/runtime/refresh_task.go: what it does to the published runtime and to the tracker, on every branch.
use mathlib.Core.Path.{subst}
use pelican_mc_router.Prelude.{
  ◌≡◌, ◌≢◌, ◌⊎◌, refl, sym, inl, inr, true, false, none, some, arith, ok, err, Result-cases,
  Option-cases,
}
use pelican_mc_router.Text.{Text}
use pelican_mc_router.Runtime.Status.{not_configured, success, failure, complete}
use pelican_mc_router.Runtime.Build.{
  Environment, Settings, Synchronizer, Synchronize, absent, production, custom, request, build_for,
  build,
}
use pelican_mc_router.Runtime.Refresh.{
  Task, not_acquired, finish, begin_tracking, fill_inventory, settle, synchronize_and_publish,
  refresh,
}

Synchronizer-cases :
    {W S : Type 0} (x : Synchronizer W S)
    → (x ≡ absent)
      ⊎ ((run : Synchronize W S) × (x ≡ production run))
      ⊎ ((run : Synchronize W S) × (x ≡ custom run))
Synchronizer-cases absent = inl refl
Synchronizer-cases (production run) = inr (inl (run, refl))
Synchronizer-cases (custom run) = inr (inr (run, refl))

module _ {W S : Type 0} (env : Environment W S) (task : Task S) (w : W) where
  -- A refresh that fails leaves the published runtime as it was.
  pub refresh-keeps_published :
      (refresh env task w).error ≢ none → (refresh env task w).task.published ≡ task.published
  unfolding refresh begin_tracking synchronize_and_publish finish
  refresh-keeps_published failed = ground arith

  -- Once the lock is taken, every refresh ends with the tracker idle and an outcome: a failure if
  -- it returns an error, and else a success, or "not configured".
  pub refresh-completes :
      (env.acquire w).0 ≡ ok tt
      → ((refresh env task w).task.status.in_progress ≡ false)
        × ((refresh env task w).error ≢ none
            → (refresh env task w).task.status.last_outcome ≡ some failure)
        × ((refresh env task w).error ≡ none
            → ((refresh env task w).task.status.last_outcome ≡ some success)
              ⊎ ((refresh env task w).task.status.last_outcome ≡ some not_configured))
  unfolding refresh begin_tracking synchronize_and_publish finish
  refresh-completes taken = (ground arith, λ failed. ground arith, λ fine. ground arith)

  -- The synchronization of new services, the inventory filled before it, went without error.
  abbrev pub Synchronized : Synchronizer W S → S → W → Type 0
  Synchronized absent s v = Unit
  Synchronized (production run) s v =
      ((env.refresh_inventory s v).0 ≡ ok tt)
      × ((run request (some s) (env.refresh_inventory s v).1).1 ≡ none)
  Synchronized (custom run) s v = (run request (some s) v).1 ≡ none

  abbrev pub Failed : Type 0
  Failed =
      ((refresh env task w).error ≢ none)
      × ((refresh env task w).task.published ≡ task.published)
      × ((refresh env task w).task.status.last_outcome ≡ some failure)

  -- `v` is the world once the lock is taken and the start is observed.
  abbrev pub NotConfigured : W → Type 0
  NotConfigured v =
      ((env.is_setup_complete v).0 ≡ ok false)
      × ((refresh env task w).error ≡ none)
      × ((refresh env task w).task.published ≡ none)
      × ((refresh env task w).task.status.last_outcome ≡ some not_configured)

  abbrev pub Published : W → Type 0
  Published v =
      (value : Settings) × (s : S) × ((env.is_setup_complete v).0 ≡ ok true)
      × ((env.load (env.is_setup_complete v).1).0 ≡ ok value)
      × ((build_for env value (env.load (env.is_setup_complete v).1).1).0 ≡ ok s)
      × Synchronized env.synchronizer s
          (build_for env value (env.load (env.is_setup_complete v).1).1).1
      × ((refresh env task w).error ≡ none)
      × ((refresh env task w).task.published ≡ some s)
      × ((refresh env task w).task.status.last_outcome ≡ some success)

  refresh-configured :
      (value : Settings) (s : S)
      → (env.acquire w).0 ≡ ok tt
      → (env.is_setup_complete (begin_tracking env task (env.acquire w).1).1).0 ≡ ok true
      → (env.load (env.is_setup_complete (begin_tracking env task (env.acquire w).1).1).1).0
        ≡ ok value
      → (build_for env value
          (env.load (env.is_setup_complete (begin_tracking env task (env.acquire w).1).1).1).1).0
        ≡ ok s
      → Failed
        ⊎ NotConfigured (begin_tracking env task (env.acquire w).1).1
        ⊎ Published (begin_tracking env task (env.acquire w).1).1
  unfolding refresh build begin_tracking fill_inventory synchronize_and_publish settle finish
      complete
  refresh-configured value s taken configured loaded built =
      let v : W = (begin_tracking env task (env.acquire w).1).1 in
      let v3 : W = (build_for env value (env.load (env.is_setup_complete v).1).1).1 in
      elim (Synchronizer-cases env.synchronizer) [
        | inl none_set ↦ inr (
            inr (
              value,
              s,
              configured,
              loaded,
              built,
              subst (λ z. Synchronized z s v3) (sym none_set) tt,
              ground arith,
              ground arith,
              ground arith,
            ))
        | inr (inl (run, is_production)) ↦ elim (Result-cases (env.refresh_inventory s v3).0) [
          | inr (e, bad) ↦ inl (λ fine. ground arith, ground arith, ground arith)
          | inl (_, filled) ↦
              elim (Option-cases (run request (some s) (env.refresh_inventory s v3).1).1) [
                | inr (e, bad) ↦ inl (λ fine. ground arith, ground arith, ground arith)
                | inl fine ↦ inr (
                    inr (
                      value,
                      s,
                      configured,
                      loaded,
                      built,
                      subst (λ z. Synchronized z s v3) (sym is_production) (filled, fine),
                      ground arith,
                      ground arith,
                      ground arith,
                    ))
              ]
        ]
        | inr (inr (run, is_custom)) ↦ elim (Option-cases (run request (some s) v3).1) [
          | inr (e, bad) ↦ inl (λ fine. ground arith, ground arith, ground arith)
          | inl fine ↦ inr (
              inr (
                value,
                s,
                configured,
                loaded,
                built,
                subst (λ z. Synchronized z s v3) (sym is_custom) fine,
                ground arith,
                ground arith,
                ground arith,
              ))
        ]
      ]

  -- Once the lock is taken, a refresh ends in one of three ways: it fails, and the published runtime stays
  -- as it was; the setup is not complete, and nothing is published any more; or the setup is complete, and
  -- the services built for the stored settings are published, after their inventory was filled (for the
  -- production synchronizer) and their routes synchronized without error.
  pub refresh-publishes :
      (env.acquire w).0 ≡ ok tt
      → Failed
        ⊎ NotConfigured (begin_tracking env task (env.acquire w).1).1
        ⊎ Published (begin_tracking env task (env.acquire w).1).1
  unfolding refresh build begin_tracking fill_inventory synchronize_and_publish settle finish
      complete
  refresh-publishes taken =
      let v : W = (begin_tracking env task (env.acquire w).1).1 in
      let v1 : W = (env.is_setup_complete v).1 in
      let v2 : W = (env.load v1).1 in
      elim (Result-cases (env.is_setup_complete v).0) [
        | inr (e, bad) ↦ inl (λ fine. ground arith, ground arith, ground arith)
        | inl (false, incomplete) ↦ inr (inl (incomplete, ground arith, ground arith, ground arith))
        | inl (true, configured) ↦ elim (Result-cases (env.load v1).0) [
          | inr (e, bad) ↦ inl (λ fine. ground arith, ground arith, ground arith)
          | inl (value, loaded) ↦ elim (Result-cases (build_for env value v2).0) [
            | inr (e, bad) ↦ inl (λ fine. ground arith, ground arith, ground arith)
            | inl (s, built) ↦ refresh-configured value s taken configured loaded built
          ]
        ]
      ]

  -- A refresh that does not get the lock changes nothing.
  pub refresh-not_acquired :
      (e : Text)
      → (env.acquire w).0 ≡ err e
      → refresh env task w
        ≡ record { task = task; error = some (not_acquired e); world = (env.acquire w).1 }
  unfolding refresh
  refresh-not_acquired e refused = ground arith
