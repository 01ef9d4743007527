-- ===== src/App/Selected.antt =====
-- About backend/internal/app/router_controller.go after the validation of
-- backend/pkg/config/validate.go.
use pelican_mc_router.Prelude.{
  ◌≡◌, ◌⊎◌, refl, ap, ◌∙◌, inl, inr, Bool, true, false, Option, none, List, [], ◌∷◌, ◌++◌, arith,
  is_empty, ◌==◌, ok, Option-cases, Bool-cases,
}
use pelican_mc_router.Prelude.Dict.{lookup}
use pelican_mc_router.Text.{Text, text, text_eq, Unicode, trim_space, trim, to_lower}
use pelican_mc_router.Router.{Route}
use pelican_mc_router.Router.Service.{parse_engine}
use pelican_mc_router.Config.{Configuration}
use pelican_mc_router.Config.Validate.{
  UrlParsers, ConfigError, Errors, refuse, is_blank, validate_mc_router_api_url,
  validate_router_infrastructure, validate_infrastructure,
}
use pelican_mc_router.App.{
  Client, mc_router_controller, infrared_controller, marker_path, new_client,
  new_mc_router_controller, new_infrared_controller, new_route_controller,
}
use pelican_mc_router.McRouter.Controller.{
  RouteClient, Controller, with_managed_domain, owns, reconcile_with_result,
}
use pelican_mc_router.McRouter.Controller.Server.{IsRouteServer}
use pelican_mc_router.McRouter.Controller.Convergence.{settled, reconcile-settles}
use pelican_mc_router.McRouter.Controller.Prepare.{route_table}
use pelican_mc_router.Infrared.Controller.{controller_directory}

append-eq-nil : (a b : Errors) → a ++ b ≡ [] → (a ≡ []) × (b ≡ [])
append-eq-nil [] b h = (refl, h)
append-eq-nil (e ∷ a) b h = absurd (ground arith)

module _ ⦃u : Unicode⦄ (urls : UrlParsers) where
  router_infrastructure-fine :
      (c : Configuration)
      → validate_infrastructure urls c ≡ []
      → validate_router_infrastructure urls c ≡ []
  unfolding validate_infrastructure
  router_infrastructure-fine c h =
      let (before_secrets, _) = append-eq-nil _ _ h in
      let (before_auth, _) = append-eq-nil _ _ before_secrets in
      let (before_retry, _) = append-eq-nil _ _ before_auth in
      let (before_discovery, _) = append-eq-nil _ _ before_retry in
      let (_, router) = append-eq-nil _ _ before_discovery in router

  new_mc_router_controller-builds :
      (c : Configuration)
      → urls.parse (trim_space c.mc_router_api_url)
        ≡ urls.parse_request_uri (trim_space c.mc_router_api_url)
      → validate_mc_router_api_url urls c.mc_router_api_url ≡ []
      → (client : Client) × (new_mc_router_controller urls c
          ≡ ok (mc_router_controller client (with_managed_domain c.router.domain)))
  unfolding new_mc_router_controller new_client validate_mc_router_api_url
  new_mc_router_controller-builds c same h =
      elim (Option-cases (urls.parse (trim_space c.mc_router_api_url))) [
        | inl bad ↦ absurd (ground (arith, same))
        | inr (url, good) ↦ (record { base_url = url; retry = c.retry }, ground (arith, same))
      ]

  new_infrared_controller-builds :
      (c : Configuration)
      → is_blank c.infrared.proxies_path ≡ false
      → is_blank c.infrared.reload_marker_path ≡ false
      → new_infrared_controller urls c
        ≡ ok (
            infrared_controller
              (trim_space c.infrared.proxies_path)
              (trim_space c.infrared.reload_marker_path))
  unfolding new_infrared_controller controller_directory marker_path
  new_infrared_controller-builds c h k = ground arith

  -- A configuration that passes the validation of the infrastructure gives a route controller, if
  -- `url.Parse` and `url.ParseRequestURI` read the URL of mc-router alike: for the backend mc-router one
  -- that manages the configured domain, for infrared one of the configured paths, and there is no other.
  pub new_route_controller-builds :
      (c : Configuration)
      → urls.parse (trim_space c.mc_router_api_url)
        ≡ urls.parse_request_uri (trim_space c.mc_router_api_url)
      → validate_infrastructure urls c ≡ []
      → ((trim_space c.router.backend ≡ text "mc-router")
          × ((client : Client) × (new_route_controller urls c
                ≡ ok (mc_router_controller client (with_managed_domain c.router.domain)))))
        ⊎ ((trim_space c.router.backend ≡ text "infrared")
            × (new_route_controller urls c
                ≡ ok (
                    infrared_controller
                      (trim_space c.infrared.proxies_path)
                      (trim_space c.infrared.reload_marker_path))))
  unfolding new_route_controller parse_engine validate_router_infrastructure
  new_route_controller-builds c same h =
      let fine = router_infrastructure-fine c h in
      elim (Bool-cases (trim_space c.router.backend == text "mc-router")) [
        | inl first ↦
            let (client, built) = new_mc_router_controller-builds c same (ground (arith, fine)) in
            inl (ground arith, (client, ground (arith, built)))
        | inr other_ ↦ elim (Bool-cases (trim_space c.router.backend == text "infrared")) [
          | inr neither ↦ absurd (ground (arith, fine))
          | inl second ↦
              let (proxies, marker) =
                append-eq-nil
                  (refuse (is_blank c.infrared.proxies_path)
                    ConfigError.missing_infrared_proxies_path)
                  (refuse (is_blank c.infrared.reload_marker_path)
                    ConfigError.missing_infrared_reload_marker_path)
                  (ground (arith, fine)) in
              let built =
                new_infrared_controller-builds c (ground (arith, proxies))
                  (ground (arith, marker)) in
              inr (ground arith, ground (arith, built))
        ]
      ]

is_empty-eq : (s : Text) → is_empty s ≡ true → s ≡ []
is_empty-eq [] h = refl
is_empty-eq (c ∷ s) h = absurd (ground arith)

with_managed_domain-blank :
    ⦃u : Unicode⦄
    → (domain : Text) → is_blank domain ≡ true
    → with_managed_domain domain ≡ record { managed_domain = [] }
unfolding with_managed_domain trim to_lower
with_managed_domain-blank domain h =
    ap (λ (s : Text). record { managed_domain = trim b'.' (to_lower s) })
      (is_empty-eq (trim_space domain) h)

module _ ⦃u : Unicode⦄ {W : Type 0} (client : RouteClient W) (table : W → Text → Option Text)
    (server : IsRouteServer client table) where
  -- Where the configuration has no domain, a reconciliation of the selected controller that succeeds
  -- removes every route that the plan does not ask for, also those of anybody else.
  pub blank_domain-deletes_foreign :
      (c : Configuration)
      → is_blank c.router.domain ≡ true
      → (routes : List Route) (w : W) (j : Text)
      → (reconcile_with_result client (with_managed_domain c.router.domain) routes w).error ≡ none
      → lookup j (route_table routes) ≡ none
      → table (reconcile_with_result client (with_managed_domain c.router.domain) routes w).world j
        ≡ none
  unfolding owns
  blank_domain-deletes_foreign c blank routes w j fine absent =
      let controller : Controller = with_managed_domain c.router.domain in
      let unmanaged : controller ≡ record { managed_domain = [] } =
        with_managed_domain-blank c.router.domain blank in
      let owned : owns controller j ≡ true = ap (λ (k : Controller). owns k j) unmanaged in
      let after = reconcile-settles client table server controller routes w fine j in
      after
      ∙ ap (λ (b : Bool). settled b (lookup j (route_table routes)) (table w j)) owned
      ∙ ap (λ (o : Option Text). settled true o (table w j)) absent
