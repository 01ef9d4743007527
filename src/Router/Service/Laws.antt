-- ===== src/Router/Service/Laws.antt =====
-- About `Routes` of backend/internal/router/router.go: the policies that it hands to the planner.
use pelican_mc_router.Prelude.{
  ◌≡◌, ◌≢◌, refl, Option, none, some, List, [], ◌∷◌, arith, is_empty, if◌then◌else◌, err,
  Result-cases, Option-cases, inl, inr,
}
use pelican_mc_router.Prelude.Dict.{Dict, insert, lookup, lookup-insert}
use pelican_mc_router.Text.{Text, text_eq, Unicode}
use pelican_mc_router.Models.{MinecraftServer, Policy}
use pelican_mc_router.Router.Planner.{
  Planner, Progress, policy_identity, no_progress, append_route, append_routes, plan_with_policy,
  plan_server, plan_servers, plan,
}
use pelican_mc_router.Router.Hostname.{build_hostname}
use pelican_mc_router.Router.Service.{Service, plan_routes, policy_table, routes}

abbrev pub IsFiled : Dict Text Policy → Type 0
IsFiled table = (k : Text) (p : Policy) → lookup k table ≡ some p → p.server_uuid ≡ k

insert-IsFiled :
    (table : Dict Text Policy) (policy : Policy)
    → IsFiled table
    → IsFiled (insert policy.server_uuid policy table)
insert-IsFiled table policy h k p found =
    ground (arith, h k p, lookup-insert k policy.server_uuid policy table)

pub policy_table-IsFiled :
    (table : Dict Text Policy) (stored : List Policy)
    → IsFiled table
    → IsFiled (policy_table table stored)
unfolding policy_table
policy_table-IsFiled table [] h = h
policy_table-IsFiled table (policy ∷ stored) h =
    policy_table-IsFiled (insert policy.server_uuid policy table) stored
      (insert-IsFiled table policy h)

IsFiled-nil : IsFiled []
unfolding lookup
IsFiled-nil k p found = cc

module _ ⦃u : Unicode⦄ where
  append_route-identity :
      (st : Progress) (server : MinecraftServer) (h : Text)
      → append_route st server h ≢ err policy_identity
  unfolding append_route
  append_route-identity st server h e = ground arith

  append_routes-identity :
      (st : Progress) (server : MinecraftServer) (hs : List Text)
      → append_routes st server hs ≢ err policy_identity
  unfolding append_routes
  append_routes-identity st server [] h = cc
  append_routes-identity st server (x ∷ hs) h = elim (Result-cases (append_route st server x)) [
    | inl (next, done) ↦ append_routes-identity next server hs (ground arith)
    | inr (e, failed) ↦ ground (arith, append_route-identity st server x)
  ]

  plan_with_policy-identity :
      (p : Planner) (st : Progress) (server : MinecraftServer) (policy : Option Policy)
      → ((found : Policy) → policy ≡ some found → found.server_uuid ≡ server.uuid)
      → plan_with_policy p st server policy ≢ err policy_identity
  unfolding plan_with_policy append_routes
  plan_with_policy-identity p st server none h e =
      append_route-identity st server (build_hostname server p.domain) e
  plan_with_policy-identity p st server (some policy) h e =
      let primary : Text =
        if is_empty policy.primary_hostname
        then build_hostname server p.domain
        else policy.primary_hostname in
      ground (arith, h policy refl, append_routes-identity st server (primary ∷ policy.aliases))

  plan_server-identity :
      (p : Planner) (table : Dict Text Policy) (st : Progress) (server : MinecraftServer)
      → IsFiled table
      → plan_server p table st server ≢ err policy_identity
  unfolding plan_server
  plan_server-identity p table st server filed e = ground (
    arith,
    plan_with_policy-identity p st server (lookup server.uuid table)
        (λ found. filed server.uuid found),
  )

  plan_servers-identity :
      (p : Planner) (table : Dict Text Policy) (st : Progress) (servers : List MinecraftServer)
      → IsFiled table
      → plan_servers p table st servers ≢ err policy_identity
  unfolding plan_servers
  plan_servers-identity p table st [] filed e = cc
  plan_servers-identity p table st (server ∷ servers) filed e =
      elim (Result-cases (plan_server p table st server)) [
        | inl (next, done) ↦ plan_servers-identity p table next servers filed (ground arith)
        | inr (other, failed) ↦ ground (arith, plan_server-identity p table st server filed)
      ]

  plan-identity :
      (p : Planner) (servers : List MinecraftServer) (table : Dict Text Policy)
      → IsFiled table
      → plan p servers table ≢ err policy_identity
  unfolding plan
  plan-identity p servers table filed e =
      elim (Result-cases (plan_servers p table no_progress servers)) [
        | inl (done, planned) ↦ ground arith
        | inr (other, failed) ↦
            ground (arith, plan_servers-identity p table no_progress servers filed)
      ]

  -- Whatever is discovered and stored, `Routes` never fails with a policy of another server.
  pub routes-identity :
      {W : Type 0} (s : Service W) (w : W) → (routes s w).0 ≢ err (plan_routes policy_identity)
  unfolding routes
  routes-identity s w e = elim (Result-cases (s.discover w).0) [
    | inr (f, failed) ↦ ground arith
    | inl (servers, found) ↦ elim (Option-cases s.policies) [
      | inl without ↦ ground (arith, plan-identity s.planner servers [] IsFiled-nil)
      | inr (list, with_policies) ↦ elim (Result-cases (list (s.discover w).1).0) [
        | inr (f, failed) ↦ ground arith
        | inl (stored, listed) ↦ ground (
          arith,
          plan-identity s.planner servers (policy_table [] stored)
              (policy_table-IsFiled [] stored IsFiled-nil),
        )
      ]
    ]
  ]
