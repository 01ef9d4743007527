-- ===== src/Infrared/Controller/Laws.antt =====
-- About `ReconcileChanges` of backend/internal/router/infrared/controller.go, for routes with one file
-- name.
use pelican_mc_router.Prelude.{
  ◌≡◌, ◌≢◌, refl, inl, inr, Bool, true, false, not, List, [], ◌∷◌, ◌++◌, map, arith, all, contains,
  distinct, ==-self, Result, ok, Result-cases,
}
use pelican_mc_router.Text.{Text, text, text_eq, Unicode, trim_space}
use pelican_mc_router.Router.{Route}
use pelican_mc_router.Infrared.Renderer.{ProxyConfig, managed_proxy_prefix, proxy_filename}
use pelican_mc_router.Infrared.Renderer.Laws.{filename-eq-ok}
use pelican_mc_router.Infrared.Files.{FileSystem}
use pelican_mc_router.Infrared.Controller.{
  Configurations, no_configurations, add_configuration, configure, reconcile_changes,
}

abbrev pub file_name : ⦃u : Unicode⦄ → Route → Text
file_name route = managed_proxy_prefix ++ trim_space route.server_id ++ text ".yml"

-- The identifiers that `proxyFilename` puts in the file names.
unfoldable pub server_ids : ⦃u : Unicode⦄ → List Route → List Text
server_ids routes = map (λ (r : Route). trim_space r.server_id) routes

unseen : ⦃u : Unicode⦄ → List Text → List Route → Bool
unseen seen routes = all (λ r. not (contains seen (file_name r))) routes

module _ ⦃u : Unicode⦄ where
  unseen-tail :
      (seen : List Text) (name : Text) (routes : List Route)
      → unseen (name ∷ seen) routes ≡ true
      → unseen seen routes ≡ true
  unfolding unseen all contains
  unseen-tail seen name [] h = refl
  unseen-tail seen name (r ∷ routes) h = ground (arith, unseen-tail seen name routes)

  unseen-ids :
      (seen : List Text) (route : Route) (routes : List Route)
      → unseen (file_name route ∷ seen) routes ≡ true
      → contains (server_ids routes) (trim_space route.server_id) ≡ false
  unfolding unseen all contains server_ids
  unseen-ids seen route [] h = refl
  unseen-ids seen route (r ∷ routes) h =
      ground (arith, unseen-ids seen route routes, ==-self (file_name route))

  module _ (marshal : ProxyConfig → Result Text Text) where
    added :
        (c next : Configurations) (route : Route)
        → add_configuration marshal c route ≡ ok next
        → (contains c.desired_files (file_name route) ≡ false)
          × (next.desired_files ≡ file_name route ∷ c.desired_files)
    unfolding add_configuration
    added c next route h = elim (Result-cases (proxy_filename route.server_id)) [
      | inr (e, bad) ↦ absurd (ground arith)
      | inl (name, good) ↦
          let (_, same) = filename-eq-ok route.server_id good in (ground arith, ground arith)
    ]

    module _ {W F : Type 0} (fs : FileSystem W F) where
      configure-distinct :
          (c done : Configurations) (routes : List Route) (w : W)
          → (configure fs marshal c routes w).0 ≡ ok done
          → (distinct (server_ids routes) ≡ true) × (unseen c.desired_files routes ≡ true)
      unfolding configure distinct server_ids unseen all
      configure-distinct c done [] w h = (refl, refl)
      configure-distinct c done (route ∷ routes) w h = elim (Result-cases (fs.context_err w).0) [
        | inr (e, dead) ↦ absurd (ground arith)
        | inl (_, live) ↦ elim (Result-cases (add_configuration marshal c route)) [
          | inr (e, bad) ↦ absurd (ground arith)
          | inl (next, good) ↦
              let (fresh, same) = added c next route good in
              let (rest, later) =
                configure-distinct next done routes (fs.context_err w).1 (ground arith) in
              let later1 : unseen (file_name route ∷ c.desired_files) routes ≡ true =
                ground arith in
              (
                ground (arith, unseen-ids c.desired_files route routes later1),
                ground (arith, unseen-tail c.desired_files (file_name route) routes later1),
              )
        ]
      ]

      module _ {X : Type 0} (files : W → X)
          (context_keeps : (w : W) → files (fs.context_err w).1 ≡ files w) where
        configure-keeps :
            (c : Configurations) (routes : List Route) (w : W)
            → files (configure fs marshal c routes w).1 ≡ files w
        unfolding configure
        configure-keeps c [] w = refl
        configure-keeps c (route ∷ routes) w = elim (Result-cases (fs.context_err w).0) [
          | inr (e, dead) ↦ ground (arith, context_keeps w)
          | inl (_, live) ↦ elim (Result-cases (add_configuration marshal c route)) [
            | inr (e, bad) ↦ ground (arith, context_keeps w)
            | inl (next, good) ↦
                ground (arith, context_keeps w, configure-keeps next routes (fs.context_err w).1)
          ]
        ]

        -- Routes of which two have the same trimmed server identifier are refused with an error,
        -- the files as they were.
        pub reconcile_changes-refuses :
            (directory : Text) (routes : List Route) (w : W)
            → distinct (server_ids routes) ≡ false
            → ((changed : Bool) → (reconcile_changes fs marshal directory routes w).0 ≢ ok changed)
              × (files (reconcile_changes fs marshal directory routes w).1 ≡ files w)
        unfolding reconcile_changes
        reconcile_changes-refuses directory routes w twice =
            let w1 : W = (fs.context_err w).1 in
            elim (Result-cases (fs.context_err w).0) [
              | inr (e, dead) ↦ (λ changed. ground arith, ground (arith, context_keeps w))
              | inl (_, live) ↦
                  elim (Result-cases (configure fs marshal no_configurations routes w1).0) [
                    | inl (done, good) ↦
                        absurd
                          (ground (arith, configure-distinct no_configurations done routes w1 good))
                    | inr (e, bad) ↦ (
                      λ changed. ground arith,
                      ground (arith, context_keeps w, configure-keeps no_configurations routes w1),
                    )
                  ]
            ]
