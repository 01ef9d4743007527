-- ===== src/Http/Routes/Keeps.antt =====
-- About the reading handlers of backend/internal/http: a view `state` of the world that the calls of the
-- services keep, where these only read, authorize, limit or record.
use pelican_mc_router.Prelude.{
  ◌≡◌, inl, inr, false, Option, some, List, arith, Result, Result-cases, Option-cases,
}
use pelican_mc_router.Prelude.Int.{ℤ, pos}
use pelican_mc_router.Text.{Text, Unicode}
use pelican_mc_router.Models.{MinecraftServer}
use pelican_mc_router.Router.{Route}
use pelican_mc_router.History.{Row}
use pelican_mc_router.History.Actions.{ActionEvent}
use pelican_mc_router.History.Operations.{OperationEvent}
use pelican_mc_router.Http.{Error, StatusPage, Payload, Reply, Request}
use pelican_mc_router.Http.Server.{Server, RoutePolicyStore, Authorizer, Handler, record_action}
use pelican_mc_router.Http.Authorize.{management_authorize}
use pelican_mc_router.Http.Policies.{list_route_policies}
use pelican_mc_router.Http.Histories.{list_history, history_limit}
use pelican_mc_router.Http.Settings.{get_setup_status}
use pelican_mc_router.Http.Dashboard.{dashboard_page, page_snapshot, page_with}
use pelican_mc_router.Http.Reading.{ready, status, answer}

-- A call that keeps the view.
abbrev pub Keeping : {W S A : Type 0} → (W → S) → (W → A × W) → Type 0
Keeping {W} state call = (w : W) → state (call w).1 ≡ state w

-- What reads, authorizes, limits and records leaves the view alone.
pub record Reads {W S : Type 0} (state : W → S) (s : Server W) : Type 0 where
  pub discovery :
      (w : W) (call : W → Result Error (List MinecraftServer) × W)
      → s.discovery w ≡ some call
      → Keeping state call
  pub routing :
      (w : W) (call : W → Result Error (List Route) × W)
      → s.routing w ≡ some call
      → Keeping state call
  pub is_setup_complete : Keeping state s.setup.is_setup_complete
  pub metrics : Keeping state s.metrics
  pub dashboard :
      (call : W → Result Error StatusPage × W) → s.dashboard ≡ some call → Keeping state call
  pub dashboard_auth :
      (auth : Authorizer W)
      → s.dashboard_auth ≡ some auth
      → (r : Request) → Keeping state (auth.authorize r)
  pub bootstrap_auth :
      (call : Request → W → Result Error (Unit {0}) × W)
      → s.bootstrap_auth ≡ some call
      → (r : Request) → Keeping state (call r)
  pub management_auth :
      (auth : Authorizer W)
      → s.management_auth ≡ some auth
      → (r : Request) → Keeping state (auth.authorize r) × Keeping state (auth.authorize_operator r)
  pub list_policies :
      (store : RoutePolicyStore W) → s.route_policies ≡ some store → Keeping state store.list
  pub operational_history :
      (call : ℤ → W → Result Error (List (Row OperationEvent)) × W)
      → s.operational_history ≡ some call
      → (limit : ℤ) → Keeping state (call limit)
  pub action_history_reader :
      (call : ℤ → W → Result Error (List (Row ActionEvent)) × W)
      → s.action_history_reader ≡ some call
      → (limit : ℤ) → Keeping state (call limit)
  pub action_history :
      (append : ActionEvent → W → Result Error (Unit {0}) × W)
      → s.action_history ≡ some append
      → (event : ActionEvent) → Keeping state (append event)

module _ {W S : Type 0} (state : W → S) (s : Server W) (reads : Reads state s) where
  pub record_action-keeps :
      (action outcome : Text) (w : W) → state (record_action s action outcome w) ≡ state w
  unfolding record_action
  record_action-keeps action outcome w = elim (Option-cases s.action_history) [
    | inl none_ ↦ ground arith
    | inr (append, here) ↦
        ground (
          arith,
          reads.action_history append here (record { action = action; outcome = outcome }) w,
        )
  ]

  pub management-viewer-keeps :
      (next : Handler W)
      → ((r : Request) → Keeping state (next r))
      → (r : Request) → Keeping state (management_authorize s next false r)
  unfolding management_authorize
  management-viewer-keeps next kept r w = elim (Option-cases s.management_auth) [
    | inl none_ ↦ ground arith
    | inr (auth, here) ↦
        ground (arith, (reads.management_auth auth here r).0 w, kept r (auth.authorize r w).1)
  ]

  pub answer-keeps :
      {A : Type 0} (service : Option (W → Result Error A × W)) (body : A → Payload)
      (failure : Reply)
      → ((call : W → Result Error A × W) → service ≡ some call → Keeping state call)
      → (w : W) → state (answer service body failure w).1 ≡ state w
  unfolding answer
  answer-keeps service body failure kept w = elim (Option-cases service) [
    | inl none_ ↦ ground arith
    | inr (call, here) ↦ ground (arith, kept call here w)
  ]

  pub list_history-keeps :
      {A : Type 0} (store : Option (ℤ → W → Result Error A × W)) (body : A → Payload)
      (missing unavailable : Text)
      → ((call : ℤ → W → Result Error A × W)
          → store ≡ some call
          → (limit : ℤ) → Keeping state (call limit))
      → (r : Request) → Keeping state (list_history store body missing unavailable r)
  unfolding list_history
  list_history-keeps store body missing unavailable kept r w = elim (Option-cases store) [
    | inl none_ ↦ ground arith
    | inr (call, here) ↦ elim (Option-cases (history_limit r.limit)) [
      | inl refused ↦ ground arith
      | inr (limit, given) ↦ ground (arith, kept call here limit w)
    ]
  ]

  pub list_route_policies-keeps : (r : Request) → Keeping state (list_route_policies s r)
  unfolding list_route_policies
  list_route_policies-keeps r w = elim (Option-cases s.route_policies) [
    | inl none_ ↦ ground arith
    | inr (store, here) ↦ ground (arith, reads.list_policies store here w)
  ]

  page_with-keeps : (page : StatusPage) → Keeping state (page_with s page)
  unfolding page_with
  page_with-keeps page w = elim (Option-cases s.operational_history) [
    | inl none_ ↦ ground arith
    | inr (call, here) ↦ ground (arith, reads.operational_history call here (pos 10) w)
  ]

  page_snapshot-keeps :
      (call : W → Result Error StatusPage × W)
      → s.dashboard ≡ some call
      → Keeping state (page_snapshot s call)
  unfolding page_snapshot
  page_snapshot-keeps call here w = elim (Result-cases (call w).0) [
    | inr (e, bad) ↦ ground (arith, reads.dashboard call here w)
    | inl (page, good) ↦
        ground (arith, reads.dashboard call here w, page_with-keeps page (call w).1)
  ]

  pub dashboard_page-keeps : (r : Request) → Keeping state (dashboard_page s r)
  unfolding dashboard_page
  dashboard_page-keeps r w = elim (Option-cases s.dashboard) [
    | inl none_ ↦ ground arith
    | inr (call, here) ↦ elim (Option-cases s.dashboard_auth) [
      | inl none_ ↦ ground (arith, page_snapshot-keeps call here w)
      | inr (auth, there) ↦ ground (
        arith,
        reads.dashboard_auth auth there r w,
        page_snapshot-keeps call here (auth.authorize r w).1,
      )
    ]
  ]

  pub ready-keeps : (r : Request) → Keeping state (ready s r)
  unfolding ready
  ready-keeps r w = ground (arith, reads.is_setup_complete w)

  pub status-keeps : (r : Request) → Keeping state (status s r)
  unfolding status
  status-keeps r w = ground (arith, reads.is_setup_complete w)

  pub get_setup_status-keeps : ⦃u : Unicode⦄ → (r : Request) → Keeping state (get_setup_status s r)
  unfolding get_setup_status
  get_setup_status-keeps r w = ground (arith, reads.is_setup_complete w)
