-- ===== src/Router/Planner/Laws.antt =====
-- About `Plan` of backend/internal/router/planner.go: its loops against the specification.
use mathlib.Core.List.{append_assoc, append-nil}
use pelican_mc_router.Prelude.{
  ◌≡◌, refl, sym, ap, inl, inr, Bool, true, not, ◌&&◌, Option, none, some, List, [], ◌∷◌, ◌++◌, map,
  arith, all, distinct, contains, if◌then◌else◌, Result, ok, err, ◌>>=◌, Bool-cases,
}
use pelican_mc_router.Prelude.Dict.{Dict, lookup}
use pelican_mc_router.Text.{Text, text_eq, Unicode}
use pelican_mc_router.Models.{MinecraftServer, Policy}
use pelican_mc_router.Router.{Route}
use pelican_mc_router.Router.Hostname.{is_valid_hostname, build_hostname}
use pelican_mc_router.Router.Planner.{
  PlanError, Planner, Progress, no_progress, append_route, append_routes, plan_with_policy,
  plan_server, plan_servers, plan,
}
use pelican_mc_router.Router.Planner.Spec.{
  policy_consistent, server_consistent, names, routes_to, server_routes, desired_routes, routable,
}

abbrev pub result {ℓ κ} : {E : Type ℓ} {A : Type κ} → Result E A → Option A
result (ok a) = some a
result (err e) = none

-- The progress after routes that were all accepted.
abbrev seen_after : List Text → List Route → List Text
seen_after seen [] = seen
seen_after seen (r ∷ rs) = seen_after (r.hostname ∷ seen) rs

abbrev extend : Progress → List Route → Progress
extend st rs = record { routes = st.routes ++ rs; hostnames = seen_after st.hostnames rs }

-- No route has an invalid host name, one that was seen, or that of a route before it.
acceptable : List Text → List Route → Bool
acceptable seen [] = true
acceptable seen (r ∷ rs) =
    is_valid_hostname r.hostname
    && (not (contains seen r.hostname) && acceptable (r.hostname ∷ seen) rs)

seen_after-append :
    (seen : List Text) (xs ys : List Route)
    → seen_after seen (xs ++ ys) ≡ seen_after (seen_after seen xs) ys
seen_after-append seen [] ys = refl
seen_after-append seen (r ∷ xs) ys = seen_after-append (r.hostname ∷ seen) xs ys

acceptable-append :
    (seen : List Text) (xs ys : List Route)
    → acceptable seen (xs ++ ys) ≡ (acceptable seen xs && acceptable (seen_after seen xs) ys)
unfolding acceptable
acceptable-append seen [] ys = refl
acceptable-append seen (r ∷ xs) ys = ground (arith, acceptable-append (r.hostname ∷ seen) xs ys)

extend-append :
    (st : Progress) (xs ys : List Route) → extend (extend st xs) ys ≡ extend st (xs ++ ys)
extend-append st xs ys = cc (append_assoc st.routes xs ys, seen_after-append st.hostnames xs ys)

extend-nil : (st : Progress) → extend st [] ≡ st
extend-nil st = cc (append-nil st.routes)

module _ ⦃u : Unicode⦄ where
  append_route_lem :
      (st : Progress) (server : MinecraftServer) (h : Text)
      → result (append_route st server h) ≡ (
          if acceptable st.hostnames (routes_to server (h ∷ []))
          then some (extend st (routes_to server (h ∷ [])))
          else none)
  unfolding append_route acceptable routes_to
  append_route_lem st server h = ground arith

abbrev then_result {ℓ κ ι} :
    {E : Type ℓ} {A : Type κ} {B : Type ι} → Option A → (A → Result E B) → Option B
then_result none f = none
then_result (some a) f = result (f a)

result-bind {ℓ κ ι} :
    {E : Type ℓ} {A : Type κ} {B : Type ι} (m : Result E A) (f : A → Result E B)
    → result (m >>= f) ≡ then_result (result m) f
result-bind (ok a) f = refl
result-bind (err e) f = refl

-- Accepting one list of routes and then another is accepting both.
then_extend :
    (st : Progress) (xs ys : List Route) (f : Progress → Result PlanError Progress)
    → result (f (extend st xs)) ≡ (
        if acceptable (seen_after st.hostnames xs) ys
        then some (extend (extend st xs) ys)
        else none)
    → then_result (if acceptable st.hostnames xs then some (extend st xs) else none) f
      ≡ (if acceptable st.hostnames (xs ++ ys) then some (extend st (xs ++ ys)) else none)
then_extend st xs ys f h =
    rw (acceptable-append st.hostnames xs ys, ← extend-append st xs ys)
      (elim (Bool-cases (acceptable st.hostnames xs)) [
        | inl fine ↦ rw (fine, h)
        | inr refused ↦ rw refused
      ])

module _ ⦃u : Unicode⦄ where
  append_routes_lem :
      (st : Progress) (server : MinecraftServer) (hs : List Text)
      → result (append_routes st server hs) ≡ (
          if acceptable st.hostnames (routes_to server hs)
          then some (extend st (routes_to server hs))
          else none)
  unfolding append_routes acceptable routes_to
  append_routes_lem st server [] = ap some (sym (extend-nil st))
  append_routes_lem st server (h ∷ hs) =
      rw (result-bind, append_route_lem st server h)
        (then_extend st (routes_to server (h ∷ [])) (routes_to server hs)
          (λ next. append_routes next server hs)
          (append_routes_lem (extend st (routes_to server (h ∷ []))) server hs))

  plan_with_policy_lem :
      (p : Planner) (st : Progress) (server : MinecraftServer) (policy : Option Policy)
      → result (plan_with_policy p st server policy) ≡ (
          if policy_consistent server policy
            && acceptable st.hostnames (routes_to server (names p server policy))
          then some (extend st (routes_to server (names p server policy)))
          else none)
  unfolding plan_with_policy append_routes
  plan_with_policy_lem p st server none =
      append_route_lem st server (build_hostname server p.domain)
  plan_with_policy_lem p st server (some policy) =
      ground (arith, extend-nil st, append_routes_lem st server (names p server (some policy)))

  plan_server_lem :
      (p : Planner) (policies : Dict Text Policy) (st : Progress) (server : MinecraftServer)
      → result (plan_server p policies st server) ≡ (
          if server_consistent policies server
            && acceptable st.hostnames (server_routes p policies server)
          then some (extend st (server_routes p policies server))
          else none)
  unfolding plan_server server_consistent server_routes acceptable
  plan_server_lem p policies st server =
      ground (arith, extend-nil st, plan_with_policy_lem p st server (lookup server.uuid policies))

  plan_servers_lem :
      (p : Planner) (policies : Dict Text Policy) (st : Progress) (servers : List MinecraftServer)
      → result (plan_servers p policies st servers) ≡ (
          if all (server_consistent policies) servers
            && acceptable st.hostnames (desired_routes p policies servers)
          then some (extend st (desired_routes p policies servers))
          else none)
  unfolding plan_servers desired_routes acceptable all
  plan_servers_lem p policies st [] = ap some (sym (extend-nil st))
  plan_servers_lem p policies st (server ∷ servers) =
      let here : List Route = server_routes p policies server in
      rw
        (
          result-bind,
          plan_server_lem p policies st server,
          acceptable-append st.hostnames here (desired_routes p policies servers),
          ← extend-append st here (desired_routes p policies servers),
        )
        (elim (Bool-cases (server_consistent policies server && acceptable st.hostnames here)) [
          | inl fine ↦
              rw (fine, plan_servers_lem p policies (extend st here) servers) (ground arith)
          | inr refused ↦ rw refused (ground arith)
        ])

-- Seen names apart, the routes are acceptable when they are routable.
unseen : List Text → List Route → Bool
unseen seen [] = true
unseen seen (r ∷ rs) = not (contains seen r.hostname) && unseen seen rs

abbrev hosts : List Route → List Text
hosts rs = map (λ (r : Route). r.hostname) rs

unseen-cons :
    (h : Text) (seen : List Text) (rs : List Route)
    → unseen (h ∷ seen) rs ≡ (unseen seen rs && not (contains (hosts rs) h))
unfolding unseen contains
unseen-cons h seen [] = refl
unseen-cons h seen (r ∷ rs) = ground (arith, unseen-cons h seen rs)

acceptable_lem :
    (seen : List Text) (rs : List Route) → acceptable seen rs ≡ (routable rs && unseen seen rs)
unfolding acceptable routable unseen all distinct
acceptable_lem seen [] = refl
acceptable_lem seen (r ∷ rs) =
    ground (arith, acceptable_lem (r.hostname ∷ seen) rs, unseen-cons r.hostname seen rs)

unseen-nil : (rs : List Route) → unseen [] rs ≡ true
unfolding unseen contains
unseen-nil [] = refl
unseen-nil (r ∷ rs) = unseen-nil rs

-- `Plan` succeeds exactly when every server is consistent and the wanted routes have valid and
-- pairwise different host names; it then returns the wanted routes, in the order of the servers,
-- and otherwise an error and no route.
pub plan_lem :
    ⦃u : Unicode⦄ (p : Planner) (servers : List MinecraftServer) (policies : Dict Text Policy)
    → result (plan p servers policies) ≡ (
        if all (server_consistent policies) servers && routable (desired_routes p policies servers)
        then some (desired_routes p policies servers)
        else none)
unfolding plan
plan_lem p servers policies =
    rw
      (
        result-bind,
        plan_servers_lem p policies no_progress servers,
        acceptable_lem [] (desired_routes p policies servers),
        unseen-nil (desired_routes p policies servers),
      )
      (ground arith)

pub plan-eq-ok :
    ⦃u : Unicode⦄ (p : Planner) (servers : List MinecraftServer) (policies : Dict Text Policy)
    {rs : List Route}
    → plan p servers policies ≡ ok rs
    → (all (server_consistent policies) servers ≡ true)
      × (routable (desired_routes p policies servers) ≡ true)
      × (rs ≡ desired_routes p policies servers)
plan-eq-ok p servers policies planned = ground (arith, plan_lem p servers policies)
