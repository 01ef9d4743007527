-- ===== src/Http/Routes/Guarded.antt =====
-- About the routes of backend/internal/http/server.go: which requests can change the state that the
-- handlers act on. `state` is any view of the world that only the setup service, the store's writing
-- calls and the refresher change.
use pelican_mc_router.Prelude.{
  ◌≡◌, refl, ap, ◌∙◌, ◌⊎◌, inl, inr, Bool, true, false, some, arith, Result, ok, Result-cases,
  Option-cases, Bool-cases,
}
use pelican_mc_router.Text.{Text, text, Unicode}
use pelican_mc_router.Http.{Error, Json, Reply, Request}
use pelican_mc_router.Http.Server.{Server, Authorizer, Handler, record_action}
use pelican_mc_router.Http.Authorize.{management_authorize, bootstrap_only}
use pelican_mc_router.Http.Histories.{list_action_history, list_operational_history}
use pelican_mc_router.Http.Settings.{get_setup_status, configure_setup}
use pelican_mc_router.Http.Policies.{
  list_route_policies, create_route_policy, update_route_policy, delete_route_policy,
}
use pelican_mc_router.Http.Settings.{update_settings}
use pelican_mc_router.Http.Dashboard.{dashboard_page, reconcile_dashboard}
use pelican_mc_router.Http.Reading.{
  health_handler, status, list_servers, list_routes, preview_routes,
}
use pelican_mc_router.Http.Routes.{
  Endpoint, get_root, get_health, get_metrics, get_ready, get_status, get_dashboard, post_reconcile,
  get_servers, get_routes, get_preview, get_policies, get_operations, get_actions, post_policies,
  put_policy, delete_policy, get_setup, post_setup, put_settings, serve,
}
use pelican_mc_router.Http.Routes.Keeps

-- The endpoints behind `managementOperator`.
abbrev pub needs_operator : Endpoint → Bool
needs_operator get_root = false
needs_operator get_health = false
needs_operator get_metrics = false
needs_operator get_ready = false
needs_operator get_status = false
needs_operator get_dashboard = false
needs_operator post_reconcile = true
needs_operator get_servers = false
needs_operator get_routes = false
needs_operator get_preview = false
needs_operator get_policies = false
needs_operator get_operations = false
needs_operator get_actions = false
needs_operator post_policies = true
needs_operator put_policy = true
needs_operator delete_policy = true
needs_operator get_setup = false
needs_operator post_setup = false
needs_operator put_settings = true

-- The operator is authorized for an endpoint that asks for it, or this is the setup request, the setup is
-- not complete, and the bootstrap token is accepted.
pub data MayChange {W : Type 0} (s : Server W) (r : Request) (w : W) : Endpoint → Type 0 where
  by_operator :
      (e : Endpoint) (auth : Authorizer W)
      → needs_operator e ≡ true
      → s.management_auth ≡ some auth
      → (auth.authorize_operator r w).0 ≡ ok tt
      → MayChange s r w e
  by_bootstrap :
      (authorize : Request → W → Result Error (Unit {0}) × W)
      → (s.setup.is_setup_complete w).0 ≡ ok false
      → s.bootstrap_auth ≡ some authorize
      → (authorize r (s.setup.is_setup_complete w).1).0 ≡ ok tt
      → MayChange s r w post_setup

module _ {W S : Type 0} (state : W → S) (s : Server W) (reads : Keeps.Reads state s) where
  operator-keeps :
      (e : Endpoint)
      → needs_operator e ≡ true
      → (next : Handler W) (r : Request) (w : W)
      → (state (management_authorize s next true r w).1 ≡ state w) ⊎ MayChange s r w e
  unfolding management_authorize
  operator-keeps e operator next r w = elim (Option-cases s.management_auth) [
    | inl none_ ↦ inl (ground arith)
    | inr (auth, here) ↦ elim (Result-cases (auth.authorize_operator r w).0) [
      | inl (_, allowed) ↦ inr (by_operator e auth operator here allowed)
      | inr (_, refused) ↦ inl (ground (arith, (reads.management_auth auth here r).1 w))
    ]
  ]

  -- Behind `bootstrapOnly`, the view is kept, or the handler is called with the view kept so far.
  bootstrap_only-keeps :
      (next : Handler W) (r : Request) (w : W)
      → (state (bootstrap_only s next r w).1 ≡ state w)
        ⊎ (MayChange s r w post_setup
            × ((v : W) × ((state v ≡ state w) × (bootstrap_only s next r w ≡ next r v))))
  unfolding bootstrap_only
  bootstrap_only-keeps next r w =
      let w1 : W = (s.setup.is_setup_complete w).1 in
      let first : state w1 ≡ state w = reads.is_setup_complete w in
      let recorded = λ (outcome : Text) (v : W).
        Keeps.record_action-keeps state s reads (text "bootstrap_authorization") outcome v in
      elim (Result-cases (s.setup.is_setup_complete w).0) [
        | inr (e, bad) ↦ inl (ground (arith, first, recorded (text "failure") w1))
        | inl (complete, found) ↦ elim (Bool-cases complete) [
          | inl done ↦ inl (ground (arith, first))
          | inr open_ ↦ elim (Option-cases s.bootstrap_auth) [
            | inl none_ ↦ inl (ground (arith, first, recorded (text "failure") w1))
            | inr (authorize, here) ↦
                let w2 : W = (authorize r w1).1 in
                let second : state w2 ≡ state w1 = reads.bootstrap_auth authorize here r w1 in
                elim (Result-cases (authorize r w1).0) [
                  | inr (e, refused) ↦
                      inl (ground (arith, first, second, recorded (text "denied") w2))
                  | inl (_, allowed) ↦ inr (
                    by_bootstrap authorize (ground arith) here allowed,
                    (
                      record_action s (text "bootstrap_authorization") (text "success") w2,
                      (recorded (text "success") w2 ∙ second ∙ first, ground arith),
                    ),
                  )
                ]
          ]
        ]
      ]

  -- A request to any endpoint leaves the state alone, unless it is authorized: the operator's
  -- authorization succeeded for an endpoint that asks for it, or it is the setup request, the setup is
  -- not complete and the bootstrap token was accepted. The reading calls, the authorizers, the limiter
  -- and the history are assumed to keep the state.
  pub serve-IsGuarded :
      ⦃u : Unicode⦄
      → (json : Json) (e : Endpoint) (r : Request) (w : W)
      → (state (serve s json e r w).1 ≡ state w) ⊎ MayChange s r w e
  unfolding serve health_handler list_servers list_routes preview_routes list_operational_history
      list_action_history
  serve-IsGuarded json get_root r w =
      inl (Keeps.management-viewer-keeps state s reads _ (λ r w. refl) r w)
  serve-IsGuarded json get_health r w = inl refl
  serve-IsGuarded json get_metrics r w = inl (reads.metrics w)
  serve-IsGuarded json get_ready r w = inl (Keeps.ready-keeps state s reads r w)
  serve-IsGuarded json get_status r w = inl (
      Keeps.management-viewer-keeps state s reads (status s) (Keeps.status-keeps state s reads) r w)
  serve-IsGuarded json get_dashboard r w = inl (
      Keeps.management-viewer-keeps state s reads (dashboard_page s)
        (Keeps.dashboard_page-keeps state s reads) r w)
  serve-IsGuarded json post_reconcile r w =
      operator-keeps post_reconcile refl (reconcile_dashboard s) r w
  serve-IsGuarded json get_servers r w = inl (
      Keeps.management-viewer-keeps state s reads (list_servers s)
        (λ r v. Keeps.answer-keeps state s reads (s.discovery v) _ _ (reads.discovery v) v) r w)
  serve-IsGuarded json get_routes r w = inl (
      Keeps.management-viewer-keeps state s reads (list_routes s)
        (λ r v. Keeps.answer-keeps state s reads (s.routing v) _ _ (reads.routing v) v) r w)
  serve-IsGuarded json get_preview r w = inl (
      Keeps.management-viewer-keeps state s reads (preview_routes s)
        (λ r v. Keeps.answer-keeps state s reads (s.routing v) _ _ (reads.routing v) v) r w)
  serve-IsGuarded json get_policies r w = inl (
      Keeps.management-viewer-keeps state s reads (list_route_policies s)
        (Keeps.list_route_policies-keeps state s reads) r w)
  serve-IsGuarded json get_operations r w = inl (
      Keeps.management-viewer-keeps state s reads (list_operational_history s)
        (Keeps.list_history-keeps state s reads s.operational_history _ _ _
          reads.operational_history)
        r w)
  serve-IsGuarded json get_actions r w = inl (
      Keeps.management-viewer-keeps state s reads (list_action_history s)
        (Keeps.list_history-keeps state s reads s.action_history_reader _ _ _
          reads.action_history_reader)
        r w)
  serve-IsGuarded json post_policies r w =
      operator-keeps post_policies refl (create_route_policy s json) r w
  serve-IsGuarded json put_policy r w =
      operator-keeps put_policy refl (update_route_policy s json) r w
  serve-IsGuarded json delete_policy r w =
      operator-keeps delete_policy refl (delete_route_policy s) r w
  serve-IsGuarded json get_setup r w = elim (bootstrap_only-keeps (get_setup_status s) r w) [
    | inl kept ↦ inl kept
    | inr (_, (v, (before, called))) ↦ inl (
        ap (λ (p : Reply × W). state p.1) called
        ∙ Keeps.get_setup_status-keeps state s reads r v
        ∙ before)
  ]
  serve-IsGuarded json post_setup r w = elim (bootstrap_only-keeps (configure_setup s json) r w) [
    | inl kept ↦ inl kept
    | inr (allowed, _) ↦ inr allowed
  ]
  serve-IsGuarded json put_settings r w =
      operator-keeps put_settings refl (update_settings s json) r w
